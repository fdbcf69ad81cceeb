-- ===== src/Timing/Sampler/Best.antt =====
-- The array of the sampler after any number of calls of `add_sample`.
use malloc_jt.Base.{
  ℕ, zero, suc, ◌-◌, ◌≤◌, ◌<◌, ◌≡◌, inl, inr, refl, sym, ap, ◌∙◌, subst, arith, true, false, Option,
  none, some, List, [], ◌∷◌, ◌++◌, append_assoc, append-nil, length, take, lt→ltb, le→ltb,
  Bool-cases,
}
use native.Mathlib.Decide.{dec_lt}
use malloc_jt.Timing.{Double}
use malloc_jt.Timing.Sampler.{zeros, sift, store_sample, add_value}
use malloc_jt.Timing.Sampler.Order.{
  Ordered, insert, IsSorted, insert-IsSorted, length-insert, sift-insert, IsSorted-front,
  NoLarger-front, NoLarger-trans, insert-behind, insert-front, NoLarger, nothing, snoc, Snoc-of,
  length-snoc, get_elem?-append, set_elem?-append,
}

-- The calls of `add_sample` for a list of measurements, from a count and an array on.
unfoldable pub add_values : {D : Type 0} → Double D → ℕ → ℕ → List D → List D → Option (List D)
add_values d kbest count [] values = some values
add_values d kbest count (x ∷ xs) values = elim (add_value d x kbest count values) [
  | none ↦ none
  | some vs ↦ add_values d kbest (suc count) xs vs
]

module _ {A : Type 0} where
  take_all : (n : ℕ) (xs ys : List A) → length xs ≡ n → take n (xs ++ ys) ≡ xs
  take_all zero [] ys e = refl
  take_all zero (x ∷ xs) ys e = absurd (omega (arith, e))
  take_all (suc n) [] ys e = absurd (omega (arith, e))
  take_all (suc n) (x ∷ xs) ys e = ap (λ (l : List A). x ∷ l) (take_all n xs ys (omega (arith, e)))

  take-short : (n : ℕ) (xs : List A) → length xs ≤ n → take n xs ≡ xs
  take-short zero [] h = refl
  take-short zero (x ∷ xs) h = absurd (omega arith)
  take-short (suc n) [] h = refl
  take-short (suc n) (x ∷ xs) h = ap (λ (l : List A). x ∷ l) (take-short n xs (omega arith))

  drop : ℕ → List A → List A
  drop zero xs = xs
  drop (suc n) [] = []
  drop (suc n) (x ∷ xs) = drop n xs

  take-drop : (n : ℕ) (xs : List A) → xs ≡ take n xs ++ drop n xs
  unfolding drop
  take-drop zero xs = refl
  take-drop (suc n) [] = refl
  take-drop (suc n) (x ∷ xs) = ap (λ (l : List A). x ∷ l) (take-drop n xs)

  length-take : (n : ℕ) (xs : List A) → n ≤ length xs → length (take n xs) ≡ n
  length-take zero xs h = refl
  length-take (suc n) [] h = absurd (omega arith)
  length-take (suc n) (x ∷ xs) h = ap (λ (k : ℕ). suc k) (length-take n xs (omega arith))

module _ {D : Type 0} (d : Double D) (o : Ordered d) where
  -- All the measurements in order, equal ones as they came.
  unfoldable pub sort_onto : List D → List D → List D
  sort_onto [] l = l
  sort_onto (x ∷ xs) l = sort_onto xs (insert d o x l)

  -- The array for the measurements `l` in order: the first `k`, and zeros in the places not yet taken.
  abbrev pub best : ℕ → List D → List D
  best k l = take k l ++ zeros d (k - length l)

  zeros-suc : (n k : ℕ) → n < k → zeros d (k - n) ≡ d.decimal 0 0 ∷ zeros d (k - suc n)
  zeros-suc n k h = let e : k - n ≡ suc (k - suc n) = omega arith in rw e

  store-room :
      (k : ℕ) (x z : D) (l zs : List D)
      → length l < k
      → store_sample d x k (length l) (l ++ (z ∷ zs)) ≡ some (length l, l ++ (x ∷ zs))
  unfolding store_sample
  store-room k x z l zs h = rw (store_sample, lt→ltb (length l) k h, set_elem?-append l z x zs)

  store-less :
      (x : D) (f : List D) (y : D) (count : ℕ)
      → suc (length f) ≤ count
      → d.lt x y ≡ true
      → store_sample d x (suc (length f)) count (f ++ (y ∷ [])) ≡ some (length f, f ++ (x ∷ []))
  unfolding store_sample
  store-less x f y count h less =
      let last : suc (length f) - 1 ≡ length f = omega arith in
      rw (
        store_sample,
        le→ltb count (suc (length f)) h,
        last,
        get_elem?-append f y [],
        less,
        last,
        set_elem?-append f y x [],
        last,
      )

  store-more :
      (x : D) (f : List D) (y : D) (count : ℕ)
      → suc (length f) ≤ count
      → d.lt x y ≡ false
      → store_sample d x (suc (length f)) count (f ++ (y ∷ [])) ≡ some (0, f ++ (y ∷ []))
  unfolding store_sample
  store-more x f y count h more =
      let last : suc (length f) - 1 ≡ length f = omega arith in
      rw (store_sample, le→ltb count (suc (length f)) h, last, get_elem?-append f y [], more)

  filling :
      (k : ℕ) (x : D) (l : List D)
      → IsSorted d o l
      → length l < k
      → add_value d x k (length l) (best k l) ≡ some (best k (insert d o x l))
  unfolding add_value
  filling k x l s h = rw (
    take-short k l (omega arith),
    zeros-suc (length l) k h,
    add_value,
    store-room k x (d.decimal 0 0) l (zeros d (k - suc (length l))) h,
    sift-insert d o (length l) l x (zeros d (k - suc (length l))) refl s,
    take-short k (insert d o x l) (omega (arith, length-insert d o x l)),
    length-insert d o x l,
  )

  -- The array is full: `f` and then `y` are in it, `r` are the measurements that are not.
  full :
      (x : D) (f : List D) (y : D) (r : List D) (count : ℕ)
      → IsSorted d o ((f ++ (y ∷ [])) ++ r)
      → suc (length f) ≤ count
      → add_value d x (suc (length f)) count (f ++ (y ∷ []))
        ≡ some (take (suc (length f)) (insert d o x ((f ++ (y ∷ [])) ++ r)))
  unfolding add_value sift NoLarger
  full x f y r count s h =
      let s' = IsSorted-front d o (f ++ (y ∷ [])) r s in
      let whole : (f ++ (y ∷ [])) ++ r ≡ f ++ (y ∷ r) = append_assoc f (y ∷ []) r in
      elim (Bool-cases (d.lt x y)) [
        | inl less ↦
            rw
              (
                add_value,
                store-less x f y count h less,
                sift-insert d o (length f) f x [] refl (IsSorted-front d o f (y ∷ []) s'),
                append-nil (insert d o x f),
              )
              (ap (λ (l : List D). some l)
                (sym (
                  ap (take (suc (length f)))
                    (ap (insert d o x) whole ∙ insert-front d o x y f r less)
                  ∙ take_all (suc (length f)) (insert d o x f) (y ∷ r) (length-insert d o x f))))
        | inr more ↦
            let small = NoLarger-trans d o x y f more (NoLarger-front d o f y [] s') in
            let behind = NoLarger-snoc x y f small more in
            rw (add_value, store-more x f y count h more, sift)
              (ap (λ (l : List D). some l)
                (sym (
                  ap (take (suc (length f))) (insert-behind d o x (f ++ (y ∷ [])) r behind)
                  ∙ take_all (suc (length f)) (f ++ (y ∷ [])) (insert d o x r) (length-snoc f y))))
      ]
    where
      NoLarger-snoc :
          (x y : D) (f : List D)
          → NoLarger d o x f
          → d.lt x y ≡ false
          → NoLarger d o x (f ++ (y ∷ []))
      NoLarger-snoc x y [] h e = (e, tt)
      NoLarger-snoc x y (z ∷ zs) h e = (h.0, NoLarger-snoc x y zs h.1 e)

  add_value-best :
      (k : ℕ) (x : D) (l : List D)
      → 0 < k
      → IsSorted d o l
      → add_value d x k (length l) (best k l) ≡ some (best k (insert d o x l))
  add_value-best k x l pos s = elim (dec_lt (length l) k) [
    | yes h ↦ filling k x l s h
    | no h ↦
        let none_left : k - length l ≡ 0 = omega arith in
        let none_then : k - length (insert d o x l) ≡ 0 = omega (arith, length-insert d o x l) in
        let split = take-drop k l in
        rw (none_left, none_then, append-nil (take k l), append-nil (take k (insert d o x l)))
          (elim (Snoc-of (take k l)) [
            | nothing e ↦ absurd (omega (arith, length-take k l (omega arith), ap length e))
            | snoc f y e ↦
                let size : suc (length f) ≡ k =
                  omega (arith, length-take k l (omega arith), ap length e, length-snoc f y) in
                let l' : l ≡ (f ++ (y ∷ [])) ++ drop k l =
                  split ∙ ap (λ (t : List D). t ++ drop k l) e in
                rw e (
                  subst
                    (λ q.
                      add_value d x q (length l) (f ++ (y ∷ [])) ≡ some (take q (insert d o x l)))
                    size
                    (full x f y (drop k l) (length l) (subst (IsSorted d o) l' s) (omega arith)
                      ∙ ap (λ t. some (take (suc (length f)) (insert d o x t))) (sym l')))
          ])
  ]

  pub add_values-best :
      (k : ℕ) (xs l : List D)
      → 0 < k
      → IsSorted d o l
      → add_values d k (length l) xs (best k l) ≡ some (best k (sort_onto xs l))
  unfolding add_values sort_onto
  add_values-best k [] l pos s = refl
  add_values-best k (x ∷ xs) l pos s =
      rw (add_values, add_value-best k x l pos s, sym (length-insert d o x l))
        (add_values-best k xs (insert d o x l) pos (insert-IsSorted d o x l s))

  -- After `add_sample` of any measurements, from an empty array of `kbest` places on, the array holds the
  -- `kbest` smallest ones in order, and zeros in the places not yet taken; no access is outside it.
  -- `kbest` is positive, and the measurements are ordered as numbers.
  pub add_values-kbest :
      (kbest : ℕ) (xs : List D)
      → 0 < kbest
      → add_values d kbest 0 xs (zeros d kbest) ≡ some (best kbest (sort_onto xs []))
  unfolding IsSorted
  add_values-kbest zero xs pos = elim pos [ ]
  add_values-kbest (suc k) xs pos =
      let whole : suc k - 0 ≡ suc k = omega arith in
      subst (λ n. add_values d (suc k) 0 xs (zeros d n) ≡ some (best (suc k) (sort_onto xs [])))
        whole (add_values-best (suc k) xs [] pos tt)
