-- ===== src/Heap/Gap.antt =====
-- What `coalesce` is to do: a free block of size `n` between the blocks `pre ++ p` and `post` grows
-- over its free neighbours.
use malloc_jt.Base.{ℕ, ◌+◌, Bool, true, false, List, [], ◌∷◌, ◌++◌}
use malloc_jt.Heap.{Block, free_block, used_block}

-- The block whose header follows: the first of the list, or the epilogue.
abbrev pub head : List Block → Block
head [] = used_block 0
head (b ∷ bs) = b

abbrev pub rest : List Block → List Block
rest [] = []
rest (b ∷ bs) = bs

-- A list of blocks around one free block.
pub record Gap : Type 0 where
  pub front : List Block
  pub size : ℕ
  pub back : List Block

abbrev pub fill : Gap → List Block
fill g = g.front ++ (free_block g.size ∷ g.back)

abbrev pub widen : (before after : Bool) → List Block → Block → ℕ → List Block → Gap
widen true true pre p n post = record { front = pre ++ (p ∷ []); size = n; back = post }
widen true false pre p n post = record {
  front = pre ++ (p ∷ []);
  size = n + (head post).size;
  back = rest post;
}
widen false true pre p n post = record { front = pre; size = n + p.size; back = post }
widen false false pre p n post = record {
  front = pre;
  size = n + ((head post).size + p.size);
  back = rest post;
}

abbrev pub gap : List Block → Block → ℕ → List Block → Gap
gap pre p n post = widen p.alloc (head post).alloc pre p n post
