-- ===== src/Checker.antt =====
-- `mm_checkheap` of mm.c, with `printblock` and `checkblock`. What they print is a list of messages;
-- the loop over the blocks runs on fuel.
pub mod Clean
pub mod Blocks
pub mod Readings
pub mod Sound
pub mod Walked
use malloc_jt.Base.{
  ℕ, zero, suc, ◌+◌, ◌-◌, ◌%◌, Bool, true, false, not, ◌||◌, List, [], ◌∷◌, ◌++◌, ltb, ◌==◌,
  if◌then◌else◌,
}
use malloc_jt.Machine.{Ptr, out_of_fuel, Cmd, pure, ◌>>=◌, ◌>>◌, get_heap_listp}
use malloc_jt.Mm.{dsize, get, get_size, get_alloc, hdrp, ftrp, next_blkp}

pub data Message : Type 0 where
  heap_at : Ptr → Message
  bad_prologue : Message
  bad_epilogue : Message
  not_aligned : Ptr → Message
  mismatch : Message
  end_of_list : Ptr → Message
  block_line : Ptr → (hsize : ℕ) → (halloc : Bool) → (fsize : ℕ) → (falloc : Bool) → Message

unfoldable pub printblock : Ptr → Cmd (List Message)
printblock bp = do
  hsize ← get_size (hdrp bp)
  halloc ← get_alloc (hdrp bp)
  f ← ftrp bp
  fsize ← get_size f
  f ← ftrp bp
  falloc ← get_alloc f
  if hsize == 0
      then pure (end_of_list bp ∷ [])
      else pure (block_line bp hsize (not (halloc == 0)) fsize (not (falloc == 0)) ∷ [])

unfoldable pub checkblock : Ptr → Cmd (List Message)
checkblock bp = do
  h ← get (hdrp bp)
  f ← ftrp bp
  g ← get f
  pure ((if bp % 8 == 0 then [] else not_aligned bp ∷ []) ++ (if h == g then [] else mismatch ∷ []))

unfoldable pub when : Bool → Cmd (List Message) → Cmd (List Message)
when true c = c
when false c = pure []

-- The loop, with the block at which it stops.
unfoldable pub walk : ℕ → Bool → Ptr → Cmd (List Message × Ptr)
walk zero verbose bp = λ s. out_of_fuel
walk (suc k) verbose bp = do
  n ← get_size (hdrp bp)
  if ltb 0 n
      then (do
        printed ← when verbose (printblock bp)
        checked ← checkblock bp
        next ← next_blkp bp
        (more, end) ← walk k verbose next
        pure (printed ++ (checked ++ more), end))
      else pure ([], bp)

unfoldable pub mm_checkheap : Bool → Cmd (List Message)
mm_checkheap verbose s =
    let fuel = s.mem_max_addr - s.mem_start_brk in
    (do
      start ← get_heap_listp
      n ← get_size (hdrp start)
      a ← get_alloc (hdrp start)
      first ← checkblock start
      (lines, bp) ← walk fuel verbose start
      last ← when verbose (printblock bp)
      m ← get_size (hdrp bp)
      e ← get_alloc (hdrp bp)
      pure (
          (if verbose then heap_at start ∷ [] else [])
          ++ ((if not (n == dsize) || a == 0 then bad_prologue ∷ [] else [])
              ++ (first
                  ++ (lines
                      ++ (last ++ (if not (m == 0) || e == 0 then bad_epilogue ∷ [] else [])))))))
      s
