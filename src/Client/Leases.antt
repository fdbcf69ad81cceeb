-- ===== src/Client/Leases.antt =====
-- Lookups in the list of leases after a lease was given back, or a byte stored.
use malloc_jt.Base.{
  ℕ, ◌≡◌, ◌≢◌, inl, inr, refl, sym, ap, ◌∙◌, arith, false, List, [], ◌∷◌, ◌==◌, Bool-cases,
}
use malloc_jt.Machine.{Ptr}
use malloc_jt.Client.{Lease, Listed, give_back, store_in, store}

pub Listed-give_back :
    (f : Lease) (p : Ptr) (ls : List Lease) → Listed f (give_back p ls) → Listed f ls × (f.ptr ≢ p)
Listed-give_back f p [] l = absurd l
Listed-give_back f p (x ∷ xs) l = elim (Bool-cases (x.ptr == p)) [
  | inl y ↦ (let r = Listed-give_back f p xs (rw y at l) in (inr r.0, r.1))
  | inr y ↦ elim (rw y at l) [
    | inl e ↦
        let ne : x.ptr ≢ p = ground arith in
        (inl e, λ q. ne (sym (ap (λ (z : Lease). z.ptr) e) ∙ q))
    | inr l ↦ (let r = Listed-give_back f p xs l in (inr r.0, r.1))
  ]
]

pub still-Listed :
    (f : Lease) (p : Ptr) (ls : List Lease) → Listed f ls → f.ptr ≢ p → Listed f (give_back p ls)
still-Listed f p [] l ne = absurd l
still-Listed f p (x ∷ xs) (inl e) ne =
    let y : (x.ptr == p) ≡ false = ground (arith, ap (λ (z : Lease). z.ptr) e) in rw y (inl e)
still-Listed f p (x ∷ xs) (inr l) ne = elim (Bool-cases (x.ptr == p)) [
  | inl y ↦ rw y (still-Listed f p xs l ne)
  | inr y ↦ rw y (inr (still-Listed f p xs l ne))
]

-- A lease with a byte stored was a lease before.
pub Listed-store :
    (f : Lease) (p i v : ℕ) (ls : List Lease)
    → Listed f (store p i v ls)
    → (e : Lease) × Listed e ls × (f ≡ store_in p i v e)
Listed-store f p i v [] l = absurd l
Listed-store f p i v (x ∷ xs) (inl e) = (x, inl refl, e)
Listed-store f p i v (x ∷ xs) (inr l) = let r = Listed-store f p i v xs l in (r.0, inr r.1, r.2)

pub stored-Listed :
    (e : Lease) (p i v : ℕ) (ls : List Lease)
    → Listed e ls
    → Listed (store_in p i v e) (store p i v ls)
stored-Listed e p i v [] l = absurd l
stored-Listed e p i v (x ∷ xs) (inl q) = inl (ap (store_in p i v) q)
stored-Listed e p i v (x ∷ xs) (inr l) = inr (stored-Listed e p i v xs l)
