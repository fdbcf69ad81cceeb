-- ===== src/Mm.antt =====
-- The functions of mm.c, in the order of the file. A `uint32_t` is a number below 2^32, a pointer
-- one below 2^64. The two loops of `find_fit` and that of `mm_checkheap` run on fuel.
pub mod Steps
pub mod Limits
pub mod Realloc
pub mod Copy
pub mod Init
pub mod Malloc
pub mod Extend
pub mod FindFit
pub mod Place
pub mod Retag
pub mod Free
pub mod Coalesce
pub mod Tags
use malloc_jt.Base.{
  ℕ, zero, suc, ◌+◌, ◌-◌, ◌*◌, ◌/◌, ◌%◌, ◌^◌, bit_and, bit_or, Bool, false, not, ◌&&◌, ◌||◌, Option,
  none, some, ltb, leb, ◌==◌, if◌then◌else◌, u32, add32, sub32, mul32, int_gt,
}
use malloc_jt.Machine.{
  Ptr, null, minus_one, padd, psub, word, write_word, fault, exited, out_of_fuel, ok, Cmd, pure,
  ◌>>=◌, ◌>>◌, in_arena, with_bytes, get_heap_listp, set_heap_listp, get_temp, set_temp,
}
use malloc_jt.Memlib.{mem_sbrk}

abbrev pub wsize : ℕ
wsize = 4

abbrev pub dsize : ℕ
dsize = 8

abbrev pub chunksize : ℕ
chunksize = 2 ^ 12

unfoldable pub max : ℕ → ℕ → ℕ
max x y = if int_gt x y then x else y

unfoldable pub pack : ℕ → ℕ → ℕ
pack size alloc = bit_or size (bit_and alloc 1)

unfoldable pub get : Ptr → Cmd ℕ
get p s = if in_arena s p 4 then ok (word s.bytes p) s else fault

unfoldable pub put : Ptr → ℕ → Cmd (Unit {0})
put p val s = if in_arena s p 4 then ok tt (with_bytes s (write_word s.bytes p val)) else fault

-- `~0x7` is an `int`, and is converted to `uint32_t`.
unfoldable pub get_size : Ptr → Cmd ℕ
get_size p = do w ← get p; pure (bit_and w 0xffff_fff8)

unfoldable pub get_alloc : Ptr → Cmd ℕ
get_alloc p = do w ← get p; pure (bit_and w 1)

unfoldable pub hdrp : Ptr → Ptr
hdrp bp = psub bp wsize

unfoldable pub ftrp : Ptr → Cmd Ptr
ftrp bp = do n ← get_size (hdrp bp); pure (psub (padd bp n) dsize)

unfoldable pub next_blkp : Ptr → Cmd Ptr
next_blkp bp = do n ← get_size (psub bp wsize); pure (padd bp n)

unfoldable pub prev_blkp : Ptr → Cmd Ptr
prev_blkp bp = do n ← get_size (psub bp dsize); pure (psub bp n)

-- The pair of statements `PUT(HDRP(bp), PACK(size, alloc)); PUT(FTRP(bp), PACK(size, alloc));`,
-- which `extend_heap`, `mm_free`, `coalesce` and `place` make. The second reads the first's header.
unfoldable pub put_tags : Ptr → ℕ → ℕ → Cmd (Unit {0})
put_tags bp size alloc = do put (hdrp bp) (pack size alloc); f ← ftrp bp; put f (pack size alloc)

-- The end of `coalesce`: a `temp` inside the merged block is moved to its start.
unfoldable pub move_temp : Ptr → Cmd Ptr
move_temp bp = do
  t ← get_temp
  if ltb bp t
      then (do next ← next_blkp bp; if ltb t next then set_temp bp >> pure bp else pure bp)
      else pure bp

-- The three merging branches of `coalesce`. `size` is a `size_t`, cut to 32 bits where it is passed
-- to PACK.
unfoldable pub merge_next : Ptr → ℕ → Cmd Ptr
merge_next bp size = do
  next ← next_blkp bp
  more ← get_size (hdrp next)
  let total = (size + more) % 2 ^ 64
  put_tags bp (total % u32) 0
  move_temp bp

unfoldable pub merge_prev : Ptr → ℕ → Cmd Ptr
merge_prev bp size = do
  prev ← prev_blkp bp
  more ← get_size (hdrp prev)
  let total = (size + more) % 2 ^ 64
  f ← ftrp bp
  put f (pack (total % u32) 0)
  prev ← prev_blkp bp
  put (hdrp prev) (pack (total % u32) 0)
  bp ← prev_blkp bp
  move_temp bp

unfoldable pub merge_both : Ptr → ℕ → Cmd Ptr
merge_both bp size = do
  next ← next_blkp bp
  f ← ftrp next
  after ← get_size f
  prev ← prev_blkp bp
  before ← get_size (hdrp prev)
  let total = (size + add32 after before) % 2 ^ 64
  prev ← prev_blkp bp
  put (hdrp prev) (pack (total % u32) 0)
  next ← next_blkp bp
  f ← ftrp next
  put f (pack (total % u32) 0)
  bp ← prev_blkp bp
  move_temp bp

-- Case 1 returns at once, without a look at `temp`.
unfoldable pub coalesce : Ptr → Cmd Ptr
coalesce bp = do
  prev ← prev_blkp bp
  f ← ftrp prev
  prev_alloc ← get_alloc f
  next ← next_blkp bp
  next_alloc ← get_alloc (hdrp next)
  size ← get_size (hdrp bp)
  if prev_alloc == 0
      then (if next_alloc == 0 then merge_both bp size else merge_prev bp size)
      else (if next_alloc == 0 then merge_next bp size else pure bp)

unfoldable pub extend_heap : ℕ → Cmd Ptr
extend_heap words = do
  let size = if words % 2 == 0 then mul32 words wsize else mul32 (add32 words 1) wsize
  bp ← mem_sbrk size
  if bp == minus_one
      then pure null
      else do put_tags bp size 0; next ← next_blkp bp; put (hdrp next) (pack 0 1); coalesce bp

-- 0, or -1 as `false`.
unfoldable pub mm_init : Cmd Bool
mm_init = do
  p ← mem_sbrk (4 * wsize)
  set_heap_listp p
  if p == minus_one then pure false else do
    put p 0
    put (padd p (1 * wsize)) (pack dsize 1)
    put (padd p (2 * wsize)) (pack dsize 1)
    put (padd p (3 * wsize)) (pack 0 1)
    set_heap_listp (padd p (2 * wsize))
    set_temp (padd p (2 * wsize))
    bp ← extend_heap (chunksize / wsize)
    pure (not (bp == null))

-- `!GET_ALLOC(HDRP(temp)) && (asize <= GET_SIZE(HDRP(temp)))`
unfoldable pub fits : ℕ → Ptr → Cmd Bool
fits asize bp = do
  a ← get_alloc (hdrp bp)
  if a == 0 then (do n ← get_size (hdrp bp); pure (leb asize n)) else pure false

-- The first loop of `find_fit`: from `temp` to the epilogue.
unfoldable pub scan_to_end : ℕ → ℕ → Cmd (Option Ptr)
scan_to_end zero asize = λ s. out_of_fuel
scan_to_end (suc k) asize = do
  t ← get_temp
  n ← get_size (hdrp t)
  if ltb 0 n
      then (do
        fit ← fits asize t
        if fit then pure (some t) else (do next ← next_blkp t; set_temp next; scan_to_end k asize))
      else pure none

-- The second loop: while `temp < oldtemp`.
unfoldable pub scan_to_old : ℕ → ℕ → Ptr → Cmd (Option Ptr)
scan_to_old zero asize oldtemp = λ s. out_of_fuel
scan_to_old (suc k) asize oldtemp = do
  t ← get_temp
  if ltb t oldtemp
      then (do
        fit ← fits asize t
        if fit
            then pure (some t)
            else (do next ← next_blkp t; set_temp next; scan_to_old k asize oldtemp))
      else pure none

-- Every block takes 8 bytes at least, so the heap's size is fuel enough for a well-formed heap.
unfoldable pub find_fit : ℕ → Cmd Ptr
find_fit asize s =
    let fuel = s.mem_brk - s.mem_start_brk in
    let oldtemp = s.temp in
    (do
      found ← scan_to_end fuel asize
      elim found [
        | some p ↦ pure p
        | none ↦ do
          start ← get_heap_listp
          set_temp start
          again ← scan_to_old fuel asize oldtemp
          elim again [ some p ↦ pure p | none ↦ pure null ]
      ])
      s

unfoldable pub mm_free : Ptr → Cmd (Unit {0})
mm_free bp = do size ← get_size (hdrp bp); put_tags bp size 0; coalesce bp; pure tt

unfoldable pub place : Ptr → ℕ → Cmd (Unit {0})
place bp asize = do
  curr_size ← get_size (hdrp bp)
  if leb (2 * dsize) (sub32 curr_size asize)
      then (do put_tags bp asize 1; next ← next_blkp bp; put_tags next (sub32 curr_size asize) 0)
      else put_tags bp curr_size 1

-- The block size for a request, in `uint32_t` arithmetic.
unfoldable pub adjust : ℕ → ℕ
adjust size =
    if leb size dsize then 2 * dsize else mul32 dsize (add32 (add32 size dsize) (dsize - 1) / dsize)

unfoldable pub mm_malloc : ℕ → Cmd Ptr
mm_malloc size = if size == 0 then pure null else do
  let asize = adjust size
  bp ← find_fit asize
  if not (bp == null) then place bp asize >> pure bp else do
    let e_size = max asize chunksize
    bp ← extend_heap (e_size / wsize)
    if bp == null then pure null else place bp asize >> pure bp

-- `memcpy`: the bytes of both ranges lie in the arena and the ranges do not meet.
unfoldable pub memcpy : Ptr → Ptr → ℕ → Cmd (Unit {0})
memcpy dst src n s =
    if in_arena s dst n && in_arena s src n && (leb (dst + n) src || leb (src + n) dst)
    then ok tt (
        with_bytes s
          λ x. if leb dst x && ltb x (dst + n) then s.bytes (src + (x - dst)) else s.bytes x)
    else fault

unfoldable pub mm_realloc : Ptr → ℕ → Cmd Ptr
mm_realloc ptr size = do
  newp ← mm_malloc size
  if newp == null then (λ s. exited) else do
    copy_size ← get_size (hdrp ptr)
    memcpy newp ptr (if ltb size copy_size then size else copy_size)
    mm_free ptr
    pure newp
