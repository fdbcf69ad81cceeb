-- ===== src/Driver/Arrays.antt =====
-- Reads and writes of the driver's arrays within their bounds.
use malloc_jt.Base.{
  ℕ, zero, suc, ◌≤◌, ◌<◌, ◌≡◌, ◌≢◌, refl, ap, arith, none, some, List, [], ◌∷◌, length,
}
use malloc_jt.Driver.{get_elem?, set_elem?}

-- The outcome of writing `a` at place `i`.
pub record Written {A : Type 0} (xs : List A) (i : ℕ) (a : A) : Type 0 where
  pub array : List A
  pub returns : set_elem? xs i a ≡ some array
  pub size : length array ≡ length xs
  pub here : get_elem? array i ≡ some a
  pub elsewhere : (j : ℕ) → j ≢ i → get_elem? array j ≡ get_elem? xs j

module _ {A : Type 0} where
  pub get_elem?-some : (xs : List A) (i : ℕ) → i < length xs → (a : A) × (get_elem? xs i ≡ some a)
  get_elem?-some [] i h = absurd (omega arith)
  get_elem?-some (x ∷ xs) zero h = (x, refl)
  get_elem?-some (x ∷ xs) (suc i) h = get_elem?-some xs i (omega arith)

  pub get_elem?-none : (xs : List A) (i : ℕ) → length xs ≤ i → get_elem? xs i ≡ none
  get_elem?-none [] i h = refl
  get_elem?-none (x ∷ xs) zero h = absurd (omega arith)
  get_elem?-none (x ∷ xs) (suc i) h = get_elem?-none xs i (omega arith)

  pub set_elem?-none : (xs : List A) (i : ℕ) (a : A) → length xs ≤ i → set_elem? xs i a ≡ none
  set_elem?-none [] i a h = refl
  set_elem?-none (x ∷ xs) zero a h = absurd (omega arith)
  set_elem?-none (x ∷ xs) (suc i) a h = rw (set_elem?-none xs i a (omega arith))

  pub set_elem?-Written : (xs : List A) (i : ℕ) (a : A) → i < length xs → Written xs i a
  set_elem?-Written [] i a h = absurd (omega arith)
  set_elem?-Written (x ∷ xs) zero a h = record {
    array = a ∷ xs;
    returns = refl;
    size = refl;
    here = refl;
    elsewhere = other;
  }
    where
      other : (j : ℕ) → j ≢ 0 → get_elem? (a ∷ xs) j ≡ get_elem? (x ∷ xs) j
      other zero e = absurd (e refl)
      other (suc j) e = refl
  set_elem?-Written (x ∷ xs) (suc i) a h =
      let r = set_elem?-Written xs i a (omega arith) in
      record {
        array = x ∷ r.array;
        returns = rw r.returns;
        size = ap (λ (n : ℕ). suc n) r.size;
        here = r.here;
        elsewhere = other r;
      }
    where
      other :
          (r : Written xs i a) (j : ℕ)
          → j ≢ suc i
          → get_elem? (x ∷ r.array) j ≡ get_elem? (x ∷ xs) j
      other r zero e = refl
      other r (suc j) e = r.elsewhere j (λ q. e (ap (λ (n : ℕ). suc n) q))
