-- ===== src/Heap/Prologue.antt =====
-- The prologue stays in front when a free block behind it grows.
use malloc_jt.Base.{
  ℕ, ◌+◌, ◌-◌, ◌<◌, ◌≤◌, ◌≡◌, ◌⊎◌, inl, inr, refl, sym, ap, subst, arith, Bool, true, false, List,
  [], ◌∷◌, ◌++◌,
}
use malloc_jt.Machine.{Ptr, Bytes}
use malloc_jt.Machine.Words.{Same}
use malloc_jt.Heap.{Block, free_block, used_block, prologue, total, Roomy}
use malloc_jt.Heap.Gap.{fill, widen, gap, head, rest}
use malloc_jt.Heap.Lists.{Holds-split, Holds-bounds}
use malloc_jt.Heap.Widened.{Used}

-- A list that is not empty has a last block.
pub record Last (bs : List Block) : Type 0 where
  pub pre : List Block
  pub last : Block
  pub whole : bs ≡ pre ++ (last ∷ [])

pub Last-of : (x : Block) (bs : List Block) → Last (x ∷ bs)
Last-of x [] = record { pre = []; last = x; whole = refl }
Last-of x (y ∷ bs) =
    let r = Last-of y bs in
    record { pre = x ∷ r.pre; last = r.last; whole = ap (λ l. x ∷ l) r.whole }

pub Roomy-append : (xs ys : List Block) → Roomy xs → Roomy ys → Roomy (xs ++ ys)
Roomy-append [] ys p q = q
Roomy-append (x ∷ xs) ys p q = (p.0, Roomy-append xs ys p.1 q)

pub Roomy-split : (xs ys : List Block) → Roomy (xs ++ ys) → Roomy xs × Roomy ys
Roomy-split [] ys p = (tt, p)
Roomy-split (x ∷ xs) ys p = let r = Roomy-split xs ys p.1 in ((p.0, r.0), r.1)

Roomy-rest : (bs : List Block) → Roomy bs → Roomy (rest bs)
Roomy-rest [] r = tt
Roomy-rest (b ∷ bs) r = r.1

Roomy-widen :
    (x y : Bool) (pre : List Block) (p : Block) (n : ℕ) (post : List Block)
    → Roomy pre
    → 16 ≤ p.size
    → 16 ≤ n
    → Roomy post
    → Roomy (fill (widen x y pre p n post))
Roomy-widen true true pre p n post a b c d =
    Roomy-append (pre ++ (p ∷ [])) (free_block n ∷ post) (Roomy-append pre (p ∷ []) a (b, tt))
      (c, d)
Roomy-widen true false pre p n post a b c d =
    Roomy-append (pre ++ (p ∷ [])) (free_block (n + (head post).size) ∷ rest post)
      (Roomy-append pre (p ∷ []) a (b, tt)) (omega arith, Roomy-rest post d)
Roomy-widen false true pre p n post a b c d =
    Roomy-append pre (free_block (n + p.size) ∷ post) a (omega arith, d)
Roomy-widen false false pre p n post a b c d =
    Roomy-append pre (free_block (n + ((head post).size + p.size)) ∷ rest post) a
      (omega arith, Roomy-rest post d)

-- A list that begins with the prologue, before blocks that are roomy.
pub record Headed (whole : List Block) : Type 0 where
  pub bs : List Block
  pub split : whole ≡ prologue ∷ bs
  pub roomy : Roomy bs

Headed-widen :
    (x y : Bool) (z : Block) (pre : List Block) (p : Block) (n : ℕ) (post : List Block)
    → z ≡ prologue
    → Roomy (fill (widen x y pre p n post))
    → Headed (fill (widen x y (z ∷ pre) p n post))
Headed-widen true true z pre p n post e r = record {
  bs = fill (widen true true pre p n post);
  split = rw e;
  roomy = r;
}
Headed-widen true false z pre p n post e r = record {
  bs = fill (widen true false pre p n post);
  split = rw e;
  roomy = r;
}
Headed-widen false true z pre p n post e r = record {
  bs = fill (widen false true pre p n post);
  split = rw e;
  roomy = r;
}
Headed-widen false false z pre p n post e r = record {
  bs = fill (widen false false pre p n post);
  split = rw e;
  roomy = r;
}

Headed-first :
    (y : Bool) (n : ℕ) (post : List Block)
    → 16 ≤ n
    → Roomy post
    → Headed (fill (widen true y [] prologue n post))
Headed-first true n post h r = record { bs = free_block n ∷ post; split = refl; roomy = (h, r) }
Headed-first false n post h r = record {
  bs = free_block (n + (head post).size) ∷ rest post;
  split = refl;
  roomy = (omega arith, Roomy-rest post r);
}

first : List Block → Block
first [] = prologue
first (b ∷ bs) = b

pub Headed-gap :
    (f pre : List Block) (p : Block) (n : ℕ) (post : List Block)
    → prologue ∷ f ≡ pre ++ (p ∷ [])
    → Roomy f
    → 16 ≤ n
    → Roomy post
    → Headed (fill (gap pre p n post))
unfolding first
Headed-gap f [] p n post e r h k =
    let q : prologue ≡ p = ap first e in
    subst (λ b. Headed (fill (gap [] b n post))) q (Headed-first (head post).alloc n post h k)
Headed-gap f (z ∷ pre) p n post e r h k =
    let q : z ≡ prologue = sym (ap first e) in
    let t = Roomy-split pre (p ∷ []) (subst Roomy (ap rest e) r) in
    Headed-widen p.alloc (head post).alloc z pre p n post q
      (Roomy-widen p.alloc (head post).alloc pre p n post t.0 t.1.0 h k)

-- Payloads of the allocated blocks of `bs`, with `a` the first block's address, are the same.
pub record Kept (a : Ptr) (bs : List Block) (m m' : Bytes) : Type 0 where
  pub payload : (c k x : ℕ) → Used a bs c k → c ≤ x → x + 8 < c + k → m' x ≡ m x

-- An allocated block and a free one have no byte in common.
pub Used-apart :
    (a : Ptr) (front : List Block) (n : ℕ) (back : List Block) (c k : ℕ)
    → Used a (front ++ (free_block n ∷ back)) c k
    → (c + k ≤ a + total front) ⊎ (a + total front + n ≤ c)
Used-apart a front n back c k h =
    elim (Holds-split a front (free_block n ∷ back) c (used_block k) h) [
      | inl l ↦ inl (Holds-bounds a front c (used_block k) l).1
      | inr (inl e) ↦ cc (ap (λ (x : Block). x.alloc) e.1)
      | inr (inr r) ↦ inr (Holds-bounds (a + total front + n) back c (used_block k) r).0
    ]

pub Kept-free :
    {m m' : Bytes} (a : Ptr) (front : List Block) (n : ℕ) (back : List Block)
    → Same (a + total front - 4) (a + total front + n - 4) m m'
    → Kept a (front ++ (free_block n ∷ back)) m m'
Kept-free a front n back same = record {
  payload = λ c k x u h l. same.outside x (apart c k x h l (Used-apart a front n back c k u));
}
  where
    apart :
        (c k x : ℕ)
        → c ≤ x
        → x + 8 < c + k
        → (c + k ≤ a + total front) ⊎ (a + total front + n ≤ c)
        → (x < a + total front - 4) ⊎ (a + total front + n - 4 ≤ x)
    apart c k x h l (inl p) = inl (omega arith)
    apart c k x h l (inr p) = inr (omega arith)

-- A free block stands behind the prologue, so the blocks in front of it begin with the prologue.
pub record Behind (bs front : List Block) (n : ℕ) (back : List Block) : Type 0 where
  pub f : List Block
  pub front_is : front ≡ prologue ∷ f
  pub bs_is : bs ≡ f ++ (free_block n ∷ back)

pub behind :
    (bs front : List Block) (n : ℕ) (back : List Block)
    → prologue ∷ bs ≡ front ++ (free_block n ∷ back)
    → Behind bs front n back
unfolding first
behind bs [] n back e = cc
behind bs (z ∷ f) n back e = record {
  f = f;
  front_is = ap (λ y. y ∷ f) (sym (ap first e));
  bs_is = ap rest e;
}
