-- ===== src/Heap/NextFit.antt =====
-- The search of `find_fit` over the list of blocks: from the rover to the end, then from the start
-- up to the rover.
use malloc_jt.Base.{
  ℕ, ◌+◌, ◌≤◌, ◌<◌, ◌≡◌, inl, inr, refl, ◌∙◌, arith, Bool, true, false, not, ◌&&◌, Option, none,
  some, List, [], ◌∷◌, ◌++◌, leb, if◌then◌else◌, Bool-cases,
}
use malloc_jt.Machine.{Ptr}
use malloc_jt.Heap.{Block, free_block, total, Holds}
use malloc_jt.Heap.Lists.{Holds-split, Holds-left, Holds-right}

abbrev pub suits : ℕ → Block → Bool
suits asize b = not b.alloc && leb asize b.size

-- The first block from `a` on that is free and large enough.
unfoldable pub first_fit : Ptr → ℕ → List Block → Option Ptr
first_fit a asize [] = none
first_fit a asize (b ∷ bs) = if suits asize b then some a else first_fit (a + b.size) asize bs

-- Next fit: `post` are the blocks from the rover on, `pre` those in front of it, from `a` on.
unfoldable pub next_fit : Ptr → ℕ → (pre post : List Block) → Option Ptr
next_fit a asize pre post = elim (first_fit (a + total pre) asize post) [
  | some p ↦ some p
  | none ↦ first_fit a asize pre
]

module _ (a asize : ℕ) (pre post : List Block) where
  pub next_fit-hit :
      (p : Ptr) → first_fit (a + total pre) asize post ≡ some p → next_fit a asize pre post ≡ some p
  unfolding next_fit
  next_fit-hit p e = rw (e, next_fit)

  pub next_fit-miss :
      first_fit (a + total pre) asize post ≡ none
      → next_fit a asize pre post ≡ first_fit a asize pre
  unfolding next_fit
  next_fit-miss e = rw (e, next_fit)

-- A free block of `asize` bytes or more at `p`.
pub record Suited (a : Ptr) (bs : List Block) (p : Ptr) (asize : ℕ) : Type 0 where
  pub size : ℕ
  pub stands : Holds a bs p (free_block size)
  pub large : asize ≤ size

pub record Unsuited (a : Ptr) (bs : List Block) (asize : ℕ) : Type 0 where
  pub small : (p n : ℕ) → Holds a bs p (free_block n) → n < asize

suits_free :
    (asize : ℕ) (b : Block) → suits asize b ≡ true → (b ≡ free_block b.size) × (asize ≤ b.size)
suits_free asize b h = ground arith

first_fit-Suited :
    (a asize : ℕ) (bs : List Block) (p : Ptr) → first_fit a asize bs ≡ some p → Suited a bs p asize
unfolding first_fit
first_fit-Suited a asize [] p e = cc
first_fit-Suited a asize (b ∷ bs) p e = elim (Bool-cases (suits asize b)) [
  | inl y ↦ record {
    size = b.size;
    stands = inl (ground arith, ground (arith, suits_free asize b y));
    large = (suits_free asize b y).1;
  }
  | inr y ↦
      let r = first_fit-Suited (a + b.size) asize bs p (rw y at e) in
      record { size = r.size; stands = inr r.stands; large = r.large }
]

first_fit-Unsuited :
    (a asize : ℕ) (bs : List Block) → first_fit a asize bs ≡ none → Unsuited a bs asize
unfolding first_fit
first_fit-Unsuited a asize [] e = record { small = λ p n h. absurd h }
first_fit-Unsuited a asize (b ∷ bs) e = elim (Bool-cases (suits asize b)) [
  | inl y ↦ cc (rw y at e)
  | inr y ↦
      let r = first_fit-Unsuited (a + b.size) asize bs (rw y at e) in
      record { small = λ p n h. elim h [ inl k ↦ too_small n y k.1 | inr k ↦ r.small p n k ] }
]
  where
    too_small : (n : ℕ) → suits asize b ≡ false → free_block n ≡ b → n < asize
    too_small n y k = ground arith

-- A hit is a free block that is large enough.
pub next_fit-Suited :
    (a asize : ℕ) (pre post : List Block) (p : Ptr)
    → next_fit a asize pre post ≡ some p
    → Suited a (pre ++ post) p asize
unfolding next_fit
next_fit-Suited a asize pre post p e = by (first_fit (a + total pre) asize post) refl e
  where
    by :
        (o : Option Ptr)
        → first_fit (a + total pre) asize post ≡ o
        → elim o [ some p ↦ some p | none ↦ first_fit a asize pre ] ≡ some p
        → Suited a (pre ++ post) p asize
    by (some q) h k =
        let r = first_fit-Suited (a + total pre) asize post p (h ∙ k) in
        record {
          size = r.size;
          stands = Holds-right a pre post p (free_block r.size) r.stands;
          large = r.large;
        }
    by none h k =
        let r = first_fit-Suited a asize pre p k in
        record {
          size = r.size;
          stands = Holds-left a pre post p (free_block r.size) r.stands;
          large = r.large;
        }

-- A miss means that no free block is large enough.
pub next_fit-Unsuited :
    (a asize : ℕ) (pre post : List Block)
    → next_fit a asize pre post ≡ none
    → Unsuited a (pre ++ post) asize
unfolding next_fit
next_fit-Unsuited a asize pre post e = by (first_fit (a + total pre) asize post) refl e
  where
    by :
        (o : Option Ptr)
        → first_fit (a + total pre) asize post ≡ o
        → elim o [ some p ↦ some p | none ↦ first_fit a asize pre ] ≡ none
        → Unsuited a (pre ++ post) asize
    by (some q) h k = cc
    by none h k =
        let r = first_fit-Unsuited (a + total pre) asize post h in
        let l = first_fit-Unsuited a asize pre k in
        record {
          small = λ p n u. elim (Holds-split a pre post p (free_block n) u) [
            | inl v ↦ l.small p n v
            | inr v ↦ r.small p n v
          ];
        }
