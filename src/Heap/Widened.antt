-- ===== src/Heap/Widened.antt =====
-- What the growth of a free block over its free neighbours keeps: the allocated blocks, the sizes,
-- the prologue in front, and that no two free blocks are neighbours.
use malloc_jt.Base.{
  ℕ, ◌+◌, ◌≡◌, ◌⊎◌, ◌↔◌, inl, inr, refl, sym, ap, subst, arith, Bool, true, false, List, [], ◌∷◌,
  ◌++◌, append_assoc,
}
use malloc_jt.Machine.{Ptr}
use malloc_jt.Heap.{Block, free_block, used_block, total, Holds, Compact}
use malloc_jt.Heap.Gap.{fill, widen, gap, head, rest}
use malloc_jt.Heap.Lists.{Holds-split, Holds-left, Holds-right, Holds-shift}

-- An allocated block of size `k` at `c`.
abbrev pub Used : Ptr → List Block → Ptr → ℕ → Type 0
Used a bs c k = Holds a bs c (used_block k)

-- Free blocks hold no allocated one, so they may change as long as their extent stays.
pub AllFree : List Block → Type 0
AllFree [] = Unit
AllFree (b ∷ bs) = (b.alloc ≡ false) × AllFree bs

not-Used-free : (a : Ptr) (bs : List Block) (c k : ℕ) → AllFree bs → ¬ Used a bs c k
unfolding AllFree
not-Used-free a [] c k f h = h
not-Used-free a (b ∷ bs) c k f (inl h) = cc (ap (λ (x : Block). x.alloc) h.1)
not-Used-free a (b ∷ bs) c k f (inr h) = not-Used-free (a + b.size) bs c k f.1 h

pub Used-swap :
    (a : Ptr) (pre xs ys post : List Block) (c k : ℕ)
    → AllFree xs
    → total xs ≡ total ys
    → Used a (pre ++ (xs ++ post)) c k
    → Used a (pre ++ (ys ++ post)) c k
Used-swap a pre xs ys post c k f e h = elim (Holds-split a pre (xs ++ post) c (used_block k) h) [
  | inl l ↦ Holds-left a pre (ys ++ post) c (used_block k) l
  | inr r ↦
      Holds-right a pre (ys ++ post) c (used_block k)
        (elim (Holds-split (a + total pre) xs post c (used_block k) r) [
          | inl l ↦ absurd (not-Used-free (a + total pre) xs c k f l)
          | inr q ↦
              Holds-right (a + total pre) ys post c (used_block k)
                (Holds-shift post c (used_block k) (omega (arith, e)) q)
        ])
]

-- The blocks that one side has and the other has not are free, and of one extent.
pub record Swap (xs ys : List Block) : Type 0 where
  pub pre : List Block
  pub old : List Block
  pub new : List Block
  pub post : List Block
  pub left : xs ≡ pre ++ (old ++ post)
  pub right : ys ≡ pre ++ (new ++ post)
  pub old_free : AllFree old
  pub new_free : AllFree new
  pub extent : total old ≡ total new

pub Used-Swap : {xs ys : List Block} (a c k : ℕ) → Swap xs ys → Used a xs c k ↔ Used a ys c k
Used-Swap {xs} {ys} a c k w = (
  λ h.
      subst (λ bs. Used a bs c k) (sym w.right)
        (Used-swap a w.pre w.old w.new w.post c k w.old_free w.extent
          (subst (λ bs. Used a bs c k) w.left h)),
  λ h.
      subst (λ bs. Used a bs c k) (sym w.left)
        (Used-swap a w.pre w.new w.old w.post c k w.new_free (sym w.extent)
          (subst (λ bs. Used a bs c k) w.right h)),
)

Swap-widen :
    (x y : Bool) (pre : List Block) (p : Block) (n : ℕ) (post : List Block)
    → p.alloc ≡ x
    → (head post).alloc ≡ y
    → Swap (pre ++ (p ∷ free_block n ∷ post)) (fill (widen x y pre p n post))
unfolding AllFree
Swap-widen true true pre p n post e f = record {
  pre = pre ++ (p ∷ []);
  old = free_block n ∷ [];
  new = free_block n ∷ [];
  post = post;
  left = sym (append_assoc pre (p ∷ []) (free_block n ∷ post));
  right = refl;
  old_free = (refl, tt);
  new_free = (refl, tt);
  extent = refl;
}
Swap-widen true false pre p n [] e f = cc
Swap-widen true false pre p n (q ∷ post) e f = record {
  pre = pre ++ (p ∷ []);
  old = free_block n ∷ q ∷ [];
  new = free_block (n + q.size) ∷ [];
  post = post;
  left = sym (append_assoc pre (p ∷ []) (free_block n ∷ q ∷ post));
  right = refl;
  old_free = (refl, (f, tt));
  new_free = (refl, tt);
  extent = omega arith;
}
Swap-widen false true pre p n post e f = record {
  pre = pre;
  old = p ∷ free_block n ∷ [];
  new = free_block (n + p.size) ∷ [];
  post = post;
  left = refl;
  right = refl;
  old_free = (e, (refl, tt));
  new_free = (refl, tt);
  extent = omega arith;
}
Swap-widen false false pre p n [] e f = cc
Swap-widen false false pre p n (q ∷ post) e f = record {
  pre = pre;
  old = p ∷ free_block n ∷ q ∷ [];
  new = free_block (n + (q.size + p.size)) ∷ [];
  post = post;
  left = refl;
  right = refl;
  old_free = (e, (refl, (f, tt)));
  new_free = (refl, tt);
  extent = omega arith;
}

pub Swap-gap :
    (pre : List Block) (p : Block) (n : ℕ) (post : List Block)
    → Swap (pre ++ (p ∷ free_block n ∷ post)) (fill (gap pre p n post))
Swap-gap pre p n post = Swap-widen p.alloc (head post).alloc pre p n post refl refl

pub Compact-swap :
    (b : Bool) (pre : List Block) (x : Block) (xs : List Block) (y : Block) (ys : List Block)
    → Compact b (pre ++ (x ∷ xs))
    → x.alloc ≡ y.alloc
    → Compact y.alloc ys
    → Compact b (pre ++ (y ∷ ys))
Compact-swap b [] x xs y ys c e d = (subst (λ z. (b ≡ true) ⊎ (z ≡ true)) e c.0, d)
Compact-swap b (z ∷ pre) x xs y ys c e d = (c.0, Compact-swap z.alloc pre x xs y ys c.1 e d)

-- Behind a free block the list begins with an allocated one.
pub Compact-rest :
    (b : Bool) (bs : List Block) → (head bs).alloc ≡ true → Compact b bs → Compact false bs
Compact-rest b [] e c = tt
Compact-rest b (x ∷ bs) e c = (inr e, c.1)

pub Compact-drop :
    (b : Bool) (bs : List Block) → (head bs).alloc ≡ false → Compact b bs → Compact false (rest bs)
Compact-drop b [] e c = tt
Compact-drop b (x ∷ bs) e c = subst (λ z. Compact z bs) e c.1

Compact-widen :
    (x y : Bool) (b : Bool) (pre : List Block) (p : Block) (n : ℕ) (post : List Block)
    → p.alloc ≡ x
    → (head post).alloc ≡ y
    → Compact b (pre ++ (p ∷ []))
    → Compact true post
    → Compact b (fill (widen x y pre p n post))
Compact-widen true true b pre p n post e f c d =
    rw append_assoc
      (Compact-swap b pre p [] p (free_block n ∷ post) c refl (inl e, Compact-rest true post f d))
Compact-widen true false b pre p n post e f c d = rw append_assoc (
    Compact-swap b pre p [] p (free_block (n + (head post).size) ∷ rest post) c refl
      (inl e, Compact-drop true post f d))
Compact-widen false true b pre p n post e f c d =
    Compact-swap b pre p [] (free_block (n + p.size)) post c e (Compact-rest true post f d)
Compact-widen false false b pre p n post e f c d =
    Compact-swap b pre p [] (free_block (n + ((head post).size + p.size))) (rest post) c e
      (Compact-drop true post f d)

pub Compact-gap :
    (b : Bool) (pre : List Block) (p : Block) (n : ℕ) (post : List Block)
    → Compact b (pre ++ (p ∷ []))
    → Compact true post
    → Compact b (fill (gap pre p n post))
Compact-gap b pre p n post = Compact-widen p.alloc (head post).alloc b pre p n post refl refl
