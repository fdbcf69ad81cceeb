-- ===== src/Heap/Lists.antt =====
-- Where the blocks of a list stand, and what a list keeps when blocks in its middle are replaced.
use malloc_jt.Base.{
  ℕ, ◌+◌, ◌≤◌, ◌<◌, ◌≡◌, ◌⊎◌, inl, inr, refl, sym, subst, List, [], ◌∷◌, ◌++◌, arith, ltb, ◌&&◌,
  if◌then◌else◌,
}
use malloc_jt.Machine.{Ptr, Bytes}
use malloc_jt.Heap.{Block, free_block, total, Segment, IsBlock, Holds, StartsAt}

pub Holds-shift :
    {a a' : Ptr} (bs : List Block) (c : Ptr) (b : Block) → a ≡ a' → Holds a bs c b → Holds a' bs c b
Holds-shift bs c b e h = subst (λ k. Holds k bs c b) e h

pub Holds-split :
    (a : Ptr) (xs ys : List Block) (c : Ptr) (b : Block)
    → Holds a (xs ++ ys) c b
    → Holds a xs c b ⊎ Holds (a + total xs) ys c b
Holds-split a [] ys c b h = inr (Holds-shift {a = a} ys c b (omega arith) h)
Holds-split a (x ∷ xs) ys c b (inl h) = inl (inl h)
Holds-split a (x ∷ xs) ys c b (inr h) = elim (Holds-split (a + x.size) xs ys c b h) [
  | inl k ↦ inl (inr k)
  | inr k ↦ inr (Holds-shift {a = a + x.size + total xs} ys c b (omega arith) k)
]

pub Holds-left :
    (a : Ptr) (xs ys : List Block) (c : Ptr) (b : Block) → Holds a xs c b → Holds a (xs ++ ys) c b
Holds-left a [] ys c b h = absurd h
Holds-left a (x ∷ xs) ys c b (inl h) = inl h
Holds-left a (x ∷ xs) ys c b (inr h) = inr (Holds-left (a + x.size) xs ys c b h)

pub Holds-right :
    (a : Ptr) (xs ys : List Block) (c : Ptr) (b : Block)
    → Holds (a + total xs) ys c b
    → Holds a (xs ++ ys) c b
Holds-right a [] ys c b h = Holds-shift {a = a + 0} ys c b (omega arith) h
Holds-right a (x ∷ xs) ys c b h = inr (
    Holds-right (a + x.size) xs ys c b
      (Holds-shift {a = a + (x.size + total xs)} ys c b (omega arith) h))

-- A block lies within the extent of its list.
pub Holds-bounds :
    (a : Ptr) (bs : List Block) (c : Ptr) (b : Block)
    → Holds a bs c b
    → (a ≤ c) × (c + b.size ≤ a + total bs)
Holds-bounds a [] c b h = absurd h
Holds-bounds a (x ∷ xs) c b (inl h) = (omega arith, ground arith)
Holds-bounds a (x ∷ xs) c b (inr h) =
    let r = Holds-bounds (a + x.size) xs c b h in (omega arith, omega arith)

pub Holds-IsBlock :
    (m : Bytes) (a : Ptr) (bs : List Block) (c : Ptr) (b : Block)
    → Segment m a bs
    → Holds a bs c b
    → IsBlock m c b
Holds-IsBlock m a [] c b seg h = absurd h
Holds-IsBlock m a (x ∷ xs) c b seg (inl h) =
    subst (λ k. IsBlock m k b) (sym h.0) (subst (IsBlock m a) (sym h.1) seg.0)
Holds-IsBlock m a (x ∷ xs) c b seg (inr h) = Holds-IsBlock m (a + x.size) xs c b seg.1 h

-- A block splits the list in which it stands.
pub record At (a : Ptr) (bs : List Block) (c : Ptr) (b : Block) : Type 0 where
  pub front : List Block
  pub back : List Block
  pub whole : bs ≡ front ++ (b ∷ back)
  pub place : c ≡ a + total front

pub At-Holds : (a : Ptr) (bs : List Block) (c : Ptr) (b : Block) → Holds a bs c b → At a bs c b
At-Holds a [] c b h = absurd h
At-Holds a (x ∷ xs) c b (inl h) = record {
  front = [];
  back = xs;
  whole = ground arith;
  place = omega arith;
}
At-Holds a (x ∷ xs) c b (inr h) =
    let r = At-Holds (a + x.size) xs c b h in
    record { front = x ∷ r.front; back = r.back; whole = whole r; place = omega (arith, r.place) }
  where
    whole : (r : At (a + x.size) xs c b) → x ∷ xs ≡ x ∷ (r.front ++ (b ∷ r.back))
    whole r = ground (arith, r.whole)

pub Holds-At :
    (a : Ptr) (front back : List Block) (b : Block)
    → Holds a (front ++ (b ∷ back)) (a + total front) b
Holds-At a front back b = Holds-right a front (b ∷ back) (a + total front) b (inl (refl, refl))

-- Where `temp` stands after `coalesce` has made one block from `a` up to `end`.
abbrev pub moved : Ptr → Ptr → Ptr → Ptr
moved a end t = if ltb a t && ltb t end then a else t

moved-before : (a end t : ℕ) → t ≤ a → moved a end t ≡ t
moved-before a end t h = ground arith

moved-inside : (a end t : ℕ) → a ≤ t → t < end → moved a end t ≡ a
moved-inside a end t h k = ground arith

moved-after : (a end t : ℕ) → end ≤ t → moved a end t ≡ t
moved-after a end t h = ground arith

-- A pointer at a block points at a block again after `moved`, when the blocks `bs` become one.
pub StartsAt-moved :
    (m : Bytes) (base : Ptr) (pre bs post : List Block) (a n t : ℕ)
    → Segment m a bs
    → a ≡ base + total pre
    → n ≡ total bs
    → StartsAt base (pre ++ (bs ++ post)) t
    → StartsAt base (pre ++ (free_block n ∷ post)) (moved a (a + n) t)
StartsAt-moved m base pre bs post a n t seg e k (b, h) =
    elim (Holds-split base pre (bs ++ post) t b h) [
      | inl l ↦
          let at = Holds-bounds base pre t b l in
          rw (moved-before a (a + n) t (omega arith))
            (b, Holds-left base pre (free_block n ∷ post) t b l)
      | inr r ↦ elim (Holds-split (base + total pre) bs post t b r) [
        | inl l ↦
            let at = Holds-bounds (base + total pre) bs t b l in
            let is = Holds-IsBlock m a bs t b seg (Holds-shift bs t b (sym e) l) in
            rw (moved-inside a (a + n) t (omega arith) (omega (arith, is.least)), e)
              (free_block n, Holds-At base pre post (free_block n))
        | inr l ↦
            let at = Holds-bounds (base + total pre + total bs) post t b l in
            rw (moved-after a (a + n) t (omega arith)) (
              b,
              Holds-right base pre (free_block n ∷ post) t b
                  (inr (Holds-shift post t b (omega arith) l)),
            )
      ]
    ]
