-- ===== src/Heap/Cut.antt =====
-- What `place` is to do: a free block of size `n` becomes an allocated one of `asize` bytes and,
-- where 16 bytes or more are left, a free one behind it.
use malloc_jt.Base.{
  ℕ, ◌+◌, ◌-◌, ◌≤◌, ◌≡◌, ◌⊎◌, ◌↔◌, inl, inr, refl, ap, arith, Bool, true, false, List, [], ◌∷◌,
  ◌++◌, leb, leb→le,
}
use malloc_jt.Machine.{Ptr}
use malloc_jt.Heap.{Block, free_block, used_block, total, StartsAt, Compact, Roomy}
use malloc_jt.Heap.Lists.{Holds-split, Holds-left, Holds-right, Holds-shift}
use malloc_jt.Heap.Widened.{Used}

-- Whether the rest is a block of its own.
abbrev pub splits : ℕ → ℕ → Bool
splits n asize = leb 16 (n - asize)

abbrev pub granted : Bool → ℕ → ℕ → ℕ
granted true n asize = asize
granted false n asize = n

abbrev pub left_over : Bool → ℕ → ℕ → List Block
left_over true n asize = free_block (n - asize) ∷ []
left_over false n asize = []

abbrev pub cut : Bool → ℕ → ℕ → List Block
cut b n asize = used_block (granted b n asize) ∷ left_over b n asize

pub total-cut : (b : Bool) (n asize : ℕ) → asize ≤ n → total (cut b n asize) ≡ n
total-cut true n asize h = omega arith
total-cut false n asize h = omega arith

pub le-granted : (b : Bool) (n asize : ℕ) → asize ≤ n → asize ≤ granted b n asize
le-granted true n asize h = omega arith
le-granted false n asize h = h

pub Compact-cut :
    (d b : Bool) (pre post : List Block) (n asize : ℕ)
    → Compact d (pre ++ (free_block n ∷ post))
    → Compact d (pre ++ (cut b n asize ++ post))
Compact-cut d true [] post n asize c = (inr refl, (inl refl, c.1))
Compact-cut d false [] post n asize c = (inr refl, loosen post c.1)
  where
    loosen : (bs : List Block) → Compact false bs → Compact true bs
    loosen [] c = tt
    loosen (x ∷ bs) c = (inl refl, c.1)
Compact-cut d b (x ∷ pre) post n asize c = (c.0, Compact-cut x.alloc b pre post n asize c.1)

pub Roomy-cut :
    (pre post : List Block) (n asize : ℕ)
    → asize ≤ n
    → 16 ≤ asize
    → Roomy (pre ++ (free_block n ∷ post))
    → Roomy (pre ++ (cut (splits n asize) n asize ++ post))
Roomy-cut [] post n asize h k r = by (splits n asize) refl
  where
    by : (b : Bool) → splits n asize ≡ b → Roomy (cut b n asize ++ post)
    by true e = (k, (leb→le _ _ e, r.1))
    by false e = r
Roomy-cut (x ∷ pre) post n asize h k r = (r.0, Roomy-cut pre post n asize h k r.1)

-- The allocated blocks are those before, and the new one.
module _ (a : Ptr) (b : Bool) (pre post : List Block) (n asize : ℕ) (h : asize ≤ n) (c k : ℕ) where
  abbrev New : Type 0
  New = (c ≡ a + total pre) × (k ≡ granted b n asize)

  behind :
      Used (a + total pre + granted b n asize) (left_over b n asize ++ post) c k
      ↔ Used (a + total pre + n) post c k
  behind = by b
    where
      by :
          (b : Bool)
          → Used (a + total pre + granted b n asize) (left_over b n asize ++ post) c k
            ↔ Used (a + total pre + n) post c k
      by true = (
        λ u. elim u [
          | inl e ↦ cc (ap (λ (x : Block). x.alloc) e.1)
          | inr v ↦ Holds-shift post c (used_block k) (omega arith) v
        ],
        λ v. inr (Holds-shift post c (used_block k) (omega arith) v),
      )
      by false = (λ u. u, λ u. u)

  pub Used-cut :
      Used a (pre ++ (cut b n asize ++ post)) c k
      ↔ (Used a (pre ++ (free_block n ∷ post)) c k ⊎ New)
  Used-cut = (
    λ u. elim (Holds-split a pre (cut b n asize ++ post) c (used_block k) u) [
      | inl l ↦ inl (Holds-left a pre (free_block n ∷ post) c (used_block k) l)
      | inr r ↦ elim r [
        | inl e ↦ inr (e.0, ap (λ (x : Block). x.size) e.1)
        | inr v ↦ inl (Holds-right a pre (free_block n ∷ post) c (used_block k) (inr (behind.0 v)))
      ]
    ],
    λ w. elim w [
      | inl u ↦ elim (Holds-split a pre (free_block n ∷ post) c (used_block k) u) [
        | inl l ↦ Holds-left a pre (cut b n asize ++ post) c (used_block k) l
        | inr r ↦ elim r [
          | inl e ↦ cc (ap (λ (x : Block). x.alloc) e.1)
          | inr v ↦ Holds-right a pre (cut b n asize ++ post) c (used_block k) (inr (behind.1 v))
        ]
      ]
      | inr e ↦
          Holds-right a pre (cut b n asize ++ post) c (used_block k) (inl (e.0, ap used_block e.1))
    ],
  )

pub StartsAt-cut :
    (a : Ptr) (b : Bool) (pre post : List Block) (n asize : ℕ) (t : Ptr)
    → asize ≤ n
    → StartsAt a (pre ++ (free_block n ∷ post)) t
    → StartsAt a (pre ++ (cut b n asize ++ post)) t
StartsAt-cut a b [] post n asize t h (x, inl e) = (used_block (granted b n asize), inl (e.0, refl))
StartsAt-cut a true [] post n asize t h (x, inr v) =
    (x, inr (inr (Holds-shift post t x (omega arith) v)))
StartsAt-cut a false [] post n asize t h (x, inr v) = (x, inr v)
StartsAt-cut a b (z ∷ pre) post n asize t h (x, inl e) = (z, inl (e.0, refl))
StartsAt-cut a b (z ∷ pre) post n asize t h (x, inr v) =
    let r = StartsAt-cut (a + z.size) b pre post n asize t h (x, v) in (r.0, inr r.1)
