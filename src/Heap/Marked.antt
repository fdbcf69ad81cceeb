-- ===== src/Heap/Marked.antt =====
-- Turning an allocated block into a free one, in the list of blocks.
use malloc_jt.Base.{
  ℕ, ◌+◌, ◌≤◌, ◌≡◌, ◌≢◌, ◌↔◌, inl, inr, refl, ap, subst, arith, Bool, true, List, [], ◌∷◌, ◌++◌,
}
use malloc_jt.Machine.{Ptr}
use malloc_jt.Heap.{Block, free_block, used_block, prologue, total, Holds, StartsAt, Compact, Roomy}
use malloc_jt.Heap.Lists.{Holds-split, Holds-left, Holds-right, Holds-bounds}
use malloc_jt.Heap.Widened.{Used}

pub Holds-Roomy :
    (a : Ptr) (bs : List Block) (c : Ptr) (b : Block) → Roomy bs → Holds a bs c b → 16 ≤ b.size
Holds-Roomy a [] c b r h = absurd h
Holds-Roomy a (x ∷ xs) c b r (inl h) = ground arith
Holds-Roomy a (x ∷ xs) c b r (inr h) = Holds-Roomy (a + x.size) xs c b r.1 h

-- The allocated blocks after the one of size `n` behind `f` has been freed: all others.
pub Used-mark :
    (a : Ptr) (f : List Block) (n : ℕ) (post : List Block) (c k : ℕ)
    → Roomy f
    → 16 ≤ n
    → Used a (f ++ (free_block n ∷ post)) c k
      ↔ (Used a (f ++ (used_block n ∷ post)) c k × (c ≢ a + total f))
Used-mark a f n post c k r h = (into, out)
  where
    side :
        Used (a + total f) (free_block n ∷ post) c k
        → Used a (f ++ (used_block n ∷ post)) c k × (c ≢ a + total f)
    side (inl e) = cc (ap (λ (x : Block). x.alloc) e.1)
    side (inr u) =
        let at = Holds-bounds (a + total f + n) post c (used_block k) u in
        (Holds-right a f (used_block n ∷ post) c (used_block k) (inr u), omega arith)

    into :
        Used a (f ++ (free_block n ∷ post)) c k
        → Used a (f ++ (used_block n ∷ post)) c k × (c ≢ a + total f)
    into u = elim (Holds-split a f (free_block n ∷ post) c (used_block k) u) [
      | inl l ↦
          let at = Holds-bounds a f c (used_block k) l in
          let big = Holds-Roomy a f c (used_block k) r l in
          (Holds-left a f (used_block n ∷ post) c (used_block k) l, omega arith)
      | inr u ↦ side u
    ]

    other :
        c ≢ a + total f
        → Used (a + total f) (used_block n ∷ post) c k
        → Used a (f ++ (free_block n ∷ post)) c k
    other ne (inl e) = absurd (ne e.0)
    other ne (inr u) = Holds-right a f (free_block n ∷ post) c (used_block k) (inr u)

    out :
        Used a (f ++ (used_block n ∷ post)) c k × (c ≢ a + total f)
        → Used a (f ++ (free_block n ∷ post)) c k
    out (u, ne) = elim (Holds-split a f (used_block n ∷ post) c (used_block k) u) [
      | inl l ↦ Holds-left a f (free_block n ∷ post) c (used_block k) l
      | inr u ↦ other ne u
    ]

-- A block that changes only its allocated bit stays a start of a block.
pub StartsAt-replace :
    (a : Ptr) (f : List Block) (x y : Block) (post : List Block) (t : Ptr)
    → x.size ≡ y.size
    → StartsAt a (f ++ (x ∷ post)) t
    → StartsAt a (f ++ (y ∷ post)) t
StartsAt-replace a [] x y post t e (b, inl h) = (y, inl (h.0, refl))
StartsAt-replace a [] x y post t e (b, inr h) = (b, inr (subst (λ n. Holds (a + n) post t b) e h))
StartsAt-replace a (z ∷ f) x y post t e (b, inl h) = (z, inl (h.0, refl))
StartsAt-replace a (z ∷ f) x y post t e (b, inr h) =
    let r = StartsAt-replace (a + z.size) f x y post t e (b, h) in (r.0, inr r.1)

pub Compact-front : (b : Bool) (f post : List Block) → Compact b (f ++ post) → Compact b f
Compact-front b [] post c = tt
Compact-front b (x ∷ f) post c = (c.0, Compact-front x.alloc f post c.1)

pub Compact-back :
    (b : Bool) (f : List Block) (x : Block) (post : List Block)
    → Compact b (f ++ (x ∷ post))
    → Compact x.alloc post
Compact-back b [] x post c = c.1
Compact-back b (z ∷ f) x post c = Compact-back z.alloc f x post c.1

-- A list that may stand behind a free block may stand behind an allocated one.
pub Compact-true : (b : Bool) (bs : List Block) → Compact b bs → Compact true bs
Compact-true b [] c = tt
Compact-true b (x ∷ bs) c = (inl refl, c.1)

-- Behind the prologue.
pub Used-behind :
    (a c k : ℕ) (bs : List Block) → c ≢ a → Used a (prologue ∷ bs) c k → Used (a + 8) bs c k
Used-behind a c k bs ne (inl h) = absurd (ne h.0)
Used-behind a c k bs ne (inr h) = h

pub Used-ne : (a c k : ℕ) (bs : List Block) → Used (a + 8) bs c k → c ≢ a
Used-ne a c k bs u = let at = Holds-bounds (a + 8) bs c (used_block k) u in omega arith

-- If two lists have the same allocated blocks behind their prologues, so have they without.
pub Used-tails :
    (a c k : ℕ) (xs ys : List Block)
    → Used a (prologue ∷ xs) c k ↔ Used a (prologue ∷ ys) c k
    → Used (a + 8) xs c k ↔ Used (a + 8) ys c k
Used-tails a c k xs ys w = (
  λ h. Used-behind a c k ys (Used-ne a c k xs h) (w.0 (inr h)),
  λ h. Used-behind a c k xs (Used-ne a c k ys h) (w.1 (inr h)),
)

-- A free block at the end allocates nothing.
pub Used-snoc :
    (a : Ptr) (bs : List Block) (n c k : ℕ) → Used a bs c k ↔ Used a (bs ++ (free_block n ∷ [])) c k
Used-snoc a bs n c k = (
  λ u. Holds-left a bs (free_block n ∷ []) c (used_block k) u,
  λ u. elim (Holds-split a bs (free_block n ∷ []) c (used_block k) u) [
    | inl l ↦ l
    | inr (inl e) ↦ cc (ap (λ (x : Block). x.alloc) e.1)
    | inr (inr h) ↦ absurd h
  ],
)
