-- ===== src/Checker/Readings.antt =====
-- What the commands of the checker that only read return, and what follows when they returned.
use malloc_jt.Base.{
  bit_and, ℕ, ◌+◌, ◌-◌, ◌%◌, ◌≤◌, ◌≡◌, refl, sym, ap, subst, ◌∙◌, arith, inl, inr, Bool, true,
  false, List, [], ◌∷◌, ◌++◌, ◌==◌, ◌||◌, if◌then◌else◌, Bool-cases,
}
use malloc_jt.Base.Bits.{bit_and-one, bit_and-size_mask}
use malloc_jt.Machine.{Ptr, word, State, Outcome, ok, fault, Cmd, and_then, in_arena, padd, psub}
use malloc_jt.Machine.Words.{word-lt}
use malloc_jt.Mm.{get, get_size, get_alloc, hdrp, ftrp, next_blkp}
use malloc_jt.Checker.{
  Message, bad_prologue, bad_epilogue, not_aligned, mismatch, printblock, checkblock, when,
}

-- How a command that only reads ends: outside the arena, or with a value that is as `P` says.
pub data Reading {A : Type 0} (s : State) (P : A → Type 0) (o : Outcome A) : Type 0 where
  fails : o ≡ fault → Reading s P o
  gives : (a : A) → o ≡ ok a s → P a → Reading s P o

module _ {A B : Type 0} (s : State) where
  -- Commands that only read, one after the other.
  pub Reading-bind :
      {P : A → Type 0} {Q : B → Type 0} {o : Outcome A} (k : A → Cmd B)
      → Reading s P o
      → ((a : A) → P a → Reading s Q (k a s))
      → Reading s Q (and_then o k)
  Reading-bind {Q = Q} k (fails e) h = fails (ap (λ o. and_then o k) e)
  Reading-bind {Q = Q} k (gives a e p) h = subst (λ o. Reading s Q (and_then o k)) (sym e) (h a p)

-- The word at `p` is in the arena.
pub record InArena (s : State) (p : Ptr) : Type 0 where
  pub low : s.mem_start_brk ≤ p
  pub high : p + 4 ≤ s.mem_max_addr

pub get-Reading :
    (s : State) (p : Ptr) → Reading s (λ w. InArena s p × (w ≡ word s.bytes p)) (get p s)
unfolding get
get-Reading s p = elim (Bool-cases (in_arena s p 4)) [
  | inl y ↦
      gives (word s.bytes p) (rw y refl) (record { low = ground arith; high = ground arith }, refl)
  | inr y ↦ fails (rw y refl)
]

pub get_size-Reading :
    (s : State) (p : Ptr)
    → Reading s (λ n. InArena s p × (n ≡ word s.bytes p - word s.bytes p % 8)) (get_size p s)
unfolding get_size
get_size-Reading s p = Reading-bind s _ (get-Reading s p) (λ w q.
    gives (bit_and w 0xffff_fff8) refl (
      q.0,
      ap (λ w. bit_and w 0xffff_fff8) q.1 ∙ bit_and-size_mask (word s.bytes p) (word-lt s.bytes p),
    ))

pub get_alloc-Reading :
    (s : State) (p : Ptr) → Reading s (λ n. InArena s p × (n ≡ word s.bytes p % 2)) (get_alloc p s)
unfolding get_alloc
get_alloc-Reading s p = Reading-bind s _ (get-Reading s p) (λ w q.
    gives (bit_and w 1) refl (q.0, ap (λ w. bit_and w 1) q.1 ∙ bit_and-one (word s.bytes p)))

-- The size in the header of the block at `a`, which the checker takes for the block's size.
abbrev pub size_of : State → Ptr → ℕ
size_of s a = word s.bytes (hdrp a) - word s.bytes (hdrp a) % 8

pub ftrp-Reading :
    (s : State) (a : Ptr) → Reading s (λ f. f ≡ psub (padd a (size_of s a)) 8) (ftrp a s)
unfolding ftrp
ftrp-Reading s a =
    Reading-bind s _ (get_size-Reading s (hdrp a))
      (λ n q. gives (psub (padd a n) 8) refl (ap (λ n. psub (padd a n) 8) q.1))

pub next_blkp-Reading :
    (s : State) (a : Ptr) → Reading s (λ f. f ≡ padd a (size_of s a)) (next_blkp a s)
unfolding next_blkp hdrp
next_blkp-Reading s a =
    Reading-bind s _ (get_size-Reading s (hdrp a))
      (λ n q. gives (padd a n) refl (ap (λ n. padd a n) q.1))

-- What `checkblock` makes sure of at a block: its address is aligned, and its footer, where the
-- header's size puts it, lies in the arena and is the header's copy.
pub record Checked (s : State) (a : Ptr) : Type 0 where
  pub header : InArena s (hdrp a)
  pub footer : InArena s (psub (padd a (size_of s a)) 8)
  pub aligned : a % 8 ≡ 0
  pub same : word s.bytes (psub (padd a (size_of s a)) 8) ≡ word s.bytes (hdrp a)

-- The messages that report an error.
abbrev pub is_error : Message → Bool
is_error bad_prologue = true
is_error bad_epilogue = true
is_error (not_aligned p) = true
is_error mismatch = true
is_error other = false

abbrev pub has_error : List Message → Bool
has_error [] = false
has_error (m ∷ ms) = is_error m || has_error ms

pub has_error-append :
    (xs ys : List Message)
    → has_error (xs ++ ys) ≡ false
    → (has_error xs ≡ false) × (has_error ys ≡ false)
has_error-append [] ys e = (refl, e)
has_error-append (x ∷ xs) ys e =
    let t = has_error-append xs ys (ground (arith, e)) in (ground (arith, e, t.0), t.1)

-- A message that is left out.
pub if-empty :
    (b : Bool) (m : Message)
    → is_error m ≡ true
    → has_error (if b then [] else m ∷ []) ≡ false
    → b ≡ true
if-empty true m k e = refl
if-empty false m k e = ground (arith, k, e)

pub if-none :
    (b : Bool) (m : Message)
    → is_error m ≡ true
    → has_error (if b then m ∷ [] else []) ≡ false
    → b ≡ false
if-none true m k e = ground (arith, k, e)
if-none false m k e = refl

pub checkblock-Reading :
    (s : State) (a : Ptr) → Reading s (λ ms. has_error ms ≡ false → Checked s a) (checkblock a s)
unfolding checkblock
checkblock-Reading s a = Reading-bind s _ (get-Reading s (hdrp a)) (λ h q.
    Reading-bind s _ (ftrp-Reading s a) (λ f r. Reading-bind s _ (get-Reading s f) (λ g t.
      gives _ refl (λ e.
        let both =
          has_error-append (if a % 8 == 0 then [] else not_aligned a ∷ [])
            (if h == g then [] else mismatch ∷ []) e in
        let x = if-empty (a % 8 == 0) (not_aligned a) refl both.0 in
        let y = if-empty (h == g) mismatch refl both.1 in
        record {
          header = q.0;
          footer = subst (InArena s) r t.0;
          aligned = ground (arith, x);
          same = rw⁻¹ (r, t.1, q.1) (ground (arith, y));
        }))))

printblock-Reading : (s : State) (a : Ptr) → Reading s (λ ms. Unit {0}) (printblock a s)
unfolding printblock
printblock-Reading s a = Reading-bind s _ (get_size-Reading s (hdrp a)) λ hsize q.
    Reading-bind s _ (get_alloc-Reading s (hdrp a)) λ halloc q.
      Reading-bind s _ (ftrp-Reading s a) λ f q. Reading-bind s _ (get_size-Reading s f) λ fsize q.
        Reading-bind s _ (ftrp-Reading s a) λ g q.
          Reading-bind s _ (get_alloc-Reading s g) λ falloc q. elim (Bool-cases (hsize == 0)) [
            | inl y ↦ rw y (gives _ refl tt)
            | inr y ↦ rw y (gives _ refl tt)
          ]

pub when-Reading :
    (verbose : Bool) (s : State) (a : Ptr)
    → Reading s (λ ms. Unit {0}) (when verbose (printblock a) s)
unfolding when
when-Reading true s a = printblock-Reading s a
when-Reading false s a = gives [] refl tt
