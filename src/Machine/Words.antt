-- ===== src/Machine/Words.antt =====
-- Words in memory: what a write of four bytes changes, and what it leaves alone.
use malloc_jt.Base.{ℕ, ◌+◌, ◌≤◌, ◌<◌, ◌≡◌, ◌⊎◌, inl, inr, arith, u32, ◌∙◌, refl}
use malloc_jt.Machine.{Ptr, Bytes, word, write_word}

pub word-lt : (m : Bytes) (p : Ptr) → word m p < u32
unfolding word
word-lt m p = omega arith

pub word-write_self : (m : Bytes) (p : Ptr) (v : ℕ) → v < u32 → word (write_word m p v) p ≡ v
unfolding word write_word
word-write_self m p v h = ground arith

-- Outside of its four bytes a write changes nothing.
pub write_word-same :
    (m : Bytes) (p : Ptr) (v x : ℕ) → (x < p) ⊎ (p + 4 ≤ x) → write_word m p v x ≡ m x
unfolding write_word
write_word-same m p v x h = ground arith

-- Two memories agree outside `[lo, hi)`.
pub record Same (lo hi : ℕ) (m m' : Bytes) : Type 0 where
  pub outside : (x : ℕ) → (x < lo) ⊎ (hi ≤ x) → m' x ≡ m x

pub word-Same :
    {m m' : Bytes} {lo hi : ℕ} (p : Ptr)
    → Same lo hi m m'
    → (p + 4 ≤ lo) ⊎ (hi ≤ p)
    → word m' p ≡ word m p
unfolding word
word-Same p same (inl h) = rw (
  same.outside p (inl (omega arith)),
  same.outside (p + 1) (inl (omega arith)),
  same.outside (p + 2) (inl (omega arith)),
  same.outside (p + 3) (inl (omega arith)),
)
word-Same p same (inr h) = rw (
  same.outside p (inr (omega arith)),
  same.outside (p + 1) (inr (omega arith)),
  same.outside (p + 2) (inr (omega arith)),
  same.outside (p + 3) (inr (omega arith)),
)

pub Same-write_word :
    (m : Bytes) {lo hi : ℕ} (p : Ptr) (v : ℕ)
    → lo ≤ p
    → p + 4 ≤ hi
    → Same lo hi m (write_word m p v)
Same-write_word m p v h k = record { outside = λ x o. write_word-same m p v x (omega arith) }

pub word-write_other :
    (m : Bytes) (p : Ptr) (v q : ℕ)
    → (q + 4 ≤ p) ⊎ (p + 4 ≤ q)
    → word (write_word m p v) q ≡ word m q
word-write_other m p v q h =
    word-Same q (Same-write_word m {lo = p} {hi = p + 4} p v (omega arith) (omega arith)) h

pub Same-refl : (m : Bytes) (lo hi : ℕ) → Same lo hi m m
Same-refl m lo hi = record { outside = λ x o. refl }

pub Same-trans :
    {m m' m'' : Bytes} {lo hi : ℕ} → Same lo hi m m' → Same lo hi m' m'' → Same lo hi m m''
Same-trans p q = record { outside = λ x o. q.outside x o ∙ p.outside x o }

pub Same-widen :
    {m m' : Bytes} {lo hi : ℕ} (lo' hi' : ℕ)
    → Same lo hi m m'
    → lo' ≤ lo
    → hi ≤ hi'
    → Same lo' hi' m m'
Same-widen lo' hi' p a b = record { outside = λ x o. p.outside x (omega arith) }
