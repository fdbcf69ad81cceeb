-- ===== src/Timing/Sampler/Order.antt =====
-- The sampler keeps the smallest measurements, in order.
use malloc_jt.Base.{
  ℕ, zero, suc, ◌≡◌, inl, inr, refl, sym, ap, ◌∙◌, subst, arith, true, false, some, List, [], ◌∷◌,
  ◌++◌, append_assoc, length, if◌then◌else◌, Bool-cases,
}
use malloc_jt.Driver.{get_elem?, set_elem?}
use malloc_jt.Timing.{Double}
use malloc_jt.Timing.Sampler.{sift}

-- The values are ordered by `lt` as numbers are, which leaves out NaN.
pub record Ordered {D : Type 0} (d : Double D) : Type 0 where
  pub irreflexive : (x : D) → d.lt x x ≡ false
  pub transitive : (x y z : D) → d.lt y x ≡ false → d.lt z y ≡ false → d.lt z x ≡ false
  pub asymmetric : (x y : D) → d.lt x y ≡ true → d.lt y x ≡ false

-- A list as its front and its last element.
pub data Snoc {A : Type 0} (l : List A) : Type 0 where
  nothing : l ≡ [] → Snoc l
  snoc : (front : List A) (last : A) → l ≡ front ++ (last ∷ []) → Snoc l

module _ {A : Type 0} where
  pub Snoc-of : (l : List A) → Snoc l
  Snoc-of [] = nothing refl
  Snoc-of (x ∷ xs) = elim (Snoc-of xs) [
    | nothing e ↦ snoc [] x (ap (λ (l : List A). x ∷ l) e)
    | snoc front last e ↦ snoc (x ∷ front) last (ap (λ (l : List A). x ∷ l) e)
  ]

  pub length-snoc : (xs : List A) (x : A) → length (xs ++ (x ∷ [])) ≡ suc (length xs)
  length-snoc [] x = refl
  length-snoc (y ∷ ys) x = ap (λ (n : ℕ). suc n) (length-snoc ys x)

  pub get_elem?-append :
      (xs : List A) (y : A) (ys : List A) → get_elem? (xs ++ (y ∷ ys)) (length xs) ≡ some y
  get_elem?-append [] y ys = refl
  get_elem?-append (x ∷ xs) y ys = get_elem?-append xs y ys

  pub set_elem?-append :
      (xs : List A) (y z : A) (ys : List A)
      → set_elem? (xs ++ (y ∷ ys)) (length xs) z ≡ some (xs ++ (z ∷ ys))
  set_elem?-append [] y z ys = refl
  set_elem?-append (x ∷ xs) y z ys = rw (set_elem?-append xs y z ys)

  get_elem?-snoc :
      (xs : List A) (y z : A) (ys : List A)
      → get_elem? (xs ++ (y ∷ z ∷ ys)) (suc (length xs)) ≡ some z
  get_elem?-snoc [] y z ys = refl
  get_elem?-snoc (x ∷ xs) y z ys = get_elem?-snoc xs y z ys

  set_elem?-snoc :
      (xs : List A) (y z a : A) (ys : List A)
      → set_elem? (xs ++ (y ∷ z ∷ ys)) (suc (length xs)) a ≡ some (xs ++ (y ∷ a ∷ ys))
  set_elem?-snoc [] y z a ys = refl
  set_elem?-snoc (x ∷ xs) y z a ys = rw (set_elem?-snoc xs y z a ys)

module _ {D : Type 0} (d : Double D) (o : Ordered d) where
  -- Insertion into a list in order, behind what is not larger.
  unfoldable pub insert : D → List D → List D
  insert x [] = x ∷ []
  insert x (y ∷ ys) = if d.lt x y then x ∷ y ∷ ys else y ∷ insert x ys

  -- None of the values is larger than `x`.
  unfoldable pub NoLarger : D → List D → Type 0
  NoLarger x [] = Unit {0}
  NoLarger x (y ∷ ys) = (d.lt x y ≡ false) × NoLarger x ys

  -- None of the values is smaller than `x`.
  unfoldable pub NoSmaller : D → List D → Type 0
  NoSmaller x [] = Unit {0}
  NoSmaller x (y ∷ ys) = (d.lt y x ≡ false) × NoSmaller x ys

  unfoldable pub IsSorted : List D → Type 0
  IsSorted [] = Unit {0}
  IsSorted (x ∷ xs) = NoSmaller x xs × IsSorted xs

  NoSmaller-front : (x : D) (xs ys : List D) → NoSmaller x (xs ++ ys) → NoSmaller x xs
  unfolding NoSmaller
  NoSmaller-front x [] ys h = tt
  NoSmaller-front x (z ∷ zs) ys h = (h.0, NoSmaller-front x zs ys h.1)

  NoSmaller-at : (x y : D) (xs ys : List D) → NoSmaller x (xs ++ (y ∷ ys)) → d.lt y x ≡ false
  unfolding NoSmaller
  NoSmaller-at x y [] ys h = h.0
  NoSmaller-at x y (z ∷ zs) ys h = NoSmaller-at x y zs ys h.1

  pub IsSorted-front : (xs ys : List D) → IsSorted (xs ++ ys) → IsSorted xs
  unfolding IsSorted
  IsSorted-front [] ys h = tt
  IsSorted-front (x ∷ xs) ys h = (NoSmaller-front x xs ys h.0, IsSorted-front xs ys h.1)

  pub NoLarger-front :
      (xs : List D) (y : D) (ys : List D) → IsSorted (xs ++ (y ∷ ys)) → NoLarger y xs
  unfolding IsSorted NoLarger
  NoLarger-front [] y ys h = tt
  NoLarger-front (x ∷ xs) y ys h = (NoSmaller-at x y xs ys h.0, NoLarger-front xs y ys h.1)

  pub NoLarger-trans : (x y : D) (xs : List D) → d.lt x y ≡ false → NoLarger y xs → NoLarger x xs
  unfolding NoLarger
  NoLarger-trans x y [] e h = tt
  NoLarger-trans x y (z ∷ zs) e h = (o.transitive z y x h.0 e, NoLarger-trans x y zs e h.1)

  pub insert-behind :
      (x : D) (xs ys : List D) → NoLarger x xs → insert x (xs ++ ys) ≡ xs ++ insert x ys
  unfolding insert NoLarger
  insert-behind x [] ys h = refl
  insert-behind x (z ∷ zs) ys h = rw (h.0, insert-behind x zs ys h.1)

  pub insert-front :
      (x y : D) (xs ys : List D)
      → d.lt x y ≡ true
      → insert x (xs ++ (y ∷ ys)) ≡ insert x xs ++ (y ∷ ys)
  unfolding insert
  insert-front x y [] ys e = rw e
  insert-front x y (z ∷ zs) ys e = elim (Bool-cases (d.lt x z)) [
    | inl h ↦ rw h
    | inr h ↦ rw h (ap (λ (l : List D). z ∷ l) (insert-front x y zs ys e))
  ]

  insert-end :
      (x y : D) (xs : List D)
      → d.lt x y ≡ false
      → IsSorted (xs ++ (y ∷ []))
      → insert x (xs ++ (y ∷ [])) ≡ xs ++ (y ∷ x ∷ [])
  unfolding insert
  insert-end x y xs e s =
      insert-behind x xs (y ∷ []) (NoLarger-trans x y xs e (NoLarger-front xs y [] s))
      ∙ ap (λ (l : List D). xs ++ l) (rw e)

  NoSmaller-insert :
      (x y : D) (xs : List D) → d.lt y x ≡ false → NoSmaller x xs → NoSmaller x (insert y xs)
  unfolding NoSmaller insert
  NoSmaller-insert x y [] e h = (e, tt)
  NoSmaller-insert x y (z ∷ zs) e h = elim (Bool-cases (d.lt y z)) [
    | inl q ↦ rw q (e, h)
    | inr q ↦ rw q (h.0, NoSmaller-insert x y zs e h.1)
  ]

  NoSmaller-trans : (x y : D) (xs : List D) → d.lt y x ≡ false → NoSmaller y xs → NoSmaller x xs
  unfolding NoSmaller
  NoSmaller-trans x y [] e h = tt
  NoSmaller-trans x y (z ∷ zs) e h = (o.transitive x y z e h.0, NoSmaller-trans x y zs e h.1)

  pub insert-IsSorted : (x : D) (xs : List D) → IsSorted xs → IsSorted (insert x xs)
  unfolding insert IsSorted NoSmaller
  insert-IsSorted x [] s = (tt, tt)
  insert-IsSorted x (y ∷ ys) s = elim (Bool-cases (d.lt x y)) [
    | inl q ↦ let le = o.asymmetric x y q in rw q ((le, NoSmaller-trans x y ys le s.0), s)
    | inr q ↦ rw q (NoSmaller-insert y x ys q s.0, insert-IsSorted x ys s.1)
  ]

  pub length-insert : (x : D) (xs : List D) → length (insert x xs) ≡ suc (length xs)
  unfolding insert
  length-insert x [] = refl
  length-insert x (y ∷ ys) = elim (Bool-cases (d.lt x y)) [
    | inl q ↦ rw q
    | inr q ↦ rw q (ap (λ (n : ℕ). suc n) (length-insert x ys))
  ]

  sift-swap :
      (f : List D) (y x : D) (rest : List D)
      → d.lt x y ≡ true
      → sift d (suc (length f)) (f ++ (y ∷ x ∷ rest)) ≡ sift d (length f) (f ++ (x ∷ y ∷ rest))
  unfolding sift
  sift-swap f y x rest e = rw (
    sift,
    get_elem?-append f y (x ∷ rest),
    get_elem?-snoc f y x rest,
    e,
    set_elem?-append f y x (x ∷ rest),
    set_elem?-snoc f x x y rest,
  )

  sift-stop :
      (f : List D) (y x : D) (rest : List D)
      → d.lt x y ≡ false
      → sift d (suc (length f)) (f ++ (y ∷ x ∷ rest)) ≡ some (f ++ (y ∷ x ∷ rest))
  unfolding sift
  sift-stop f y x rest e = rw (sift, get_elem?-append f y (x ∷ rest), get_elem?-snoc f y x rest, e)

  -- The insertion sort moves the value behind the ordered front to its place.
  pub sift-insert :
      (n : ℕ) (xs : List D) (x : D) (rest : List D)
      → length xs ≡ n
      → IsSorted xs
      → sift d n (xs ++ (x ∷ rest)) ≡ some (insert x xs ++ rest)
  unfolding sift insert
  sift-insert zero [] x rest e s = refl
  sift-insert zero (y ∷ ys) x rest e s = absurd (omega (arith, e))
  sift-insert (suc n) xs x rest e s = elim (Snoc-of xs) [
    | nothing q ↦ absurd (omega (arith, e, ap length q))
    | snoc f y q ↦
        let small : length f ≡ n = omega (arith, e, ap length q, length-snoc f y) in
        let s' = subst IsSorted q s in
        let whole : xs ++ (x ∷ rest) ≡ f ++ (y ∷ x ∷ rest) =
          ap (λ (l : List D). l ++ (x ∷ rest)) q ∙ append_assoc f (y ∷ []) (x ∷ rest) in
        rw (whole, sym small)
          (elim (Bool-cases (d.lt x y)) [
            | inl less ↦
                sift-swap f y x rest less
                ∙ subst (λ k. sift d k (f ++ (x ∷ y ∷ rest)) ≡ some (insert x f ++ (y ∷ rest)))
                    (sym small) (sift-insert n f x (y ∷ rest) small (IsSorted-front f (y ∷ []) s'))
                ∙ ap (λ (l : List D). some l)
                    (sym (append_assoc (insert x f) (y ∷ []) rest)
                      ∙ ap (λ (l : List D). l ++ rest)
                          (sym (ap (insert x) q ∙ insert-front x y f [] less)))
            | inr more ↦
                sift-stop f y x rest more
                ∙ ap (λ (l : List D). some l)
                    (sym (append_assoc f (y ∷ x ∷ []) rest)
                      ∙ ap (λ (l : List D). l ++ rest)
                          (sym (ap (insert x) q ∙ insert-end x y f more s')))
          ])
  ]
