-- ===== src/Examples/Arena.antt =====
-- An arena at address 4096, and in it a heap of an allocated block of 16 bytes and a free one of 24.
use malloc_jt.Base.{◌+◌, refl, inl, arith, List, [], ◌∷◌}
use malloc_jt.Machine.{Bytes, State, word, write_word}
use malloc_jt.Memlib.{max_heap}
use malloc_jt.Heap.{Block, free_block, used_block, prologue, Layout, IsHeap}
use malloc_jt.Mm.Init.{IsReset}

abbrev pub zeros : Bytes
zeros = λ x. 0

abbrev pub reset : State
reset = record {
  bytes = zeros;
  heap_listp = 0;
  temp = 0;
  mem_start_brk = 4096;
  mem_brk = 4096;
  mem_max_addr = 4096 + max_heap;
}

pub reset-IsReset : IsReset reset
reset-IsReset = omega arith

abbrev pub small_bytes : Bytes
small_bytes =
    write_word
      (write_word
        (write_word
          (write_word (write_word (write_word (write_word zeros 4100 9) 4104 9) 4108 17) 4120 17)
          4124 24)
        4144 24)
      4148 1

abbrev pub small : State
small = record {
  bytes = small_bytes;
  heap_listp = 4104;
  temp = 4104;
  mem_start_brk = 4096;
  mem_brk = 4152;
  mem_max_addr = 4096 + max_heap;
}

abbrev pub small_blocks : List Block
small_blocks = used_block 16 ∷ free_block 24 ∷ []

pub small-Layout : Layout small (prologue ∷ small_blocks)
unfolding word write_word
small-Layout = record {
  not_low = omega arith;
  aligned = refl;
  limit = omega arith;
  small = omega arith;
  listp = refl;
  blocks = (
    record { header = refl; footer = refl; least = omega arith; eights = refl },
    (
      record { header = refl; footer = refl; least = omega arith; eights = refl },
      (record { header = refl; footer = refl; least = omega arith; eights = refl }, tt),
    ),
  );
  brk = refl;
  room = omega arith;
  epilogue = refl;
}

pub small-IsHeap : IsHeap small small_blocks
small-IsHeap = record {
  layout = small-Layout;
  roomy = (omega arith, (omega arith, tt));
  compact = (inl refl, (inl refl, tt));
  rover = (prologue, inl (refl, refl));
}
