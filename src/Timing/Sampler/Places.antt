-- ===== src/Timing/Sampler/Places.antt =====
-- The array of measurements of fcyc.c is never overrun: what is stored, and what is compared.
use malloc_jt.Base.{
  ℕ, zero, suc, ◌-◌, ◌<◌, ◌≡◌, inl, inr, refl, ap, ◌∙◌, arith, Bool, false, some, List, length, leb,
  lt→ltb, le→ltb, Bool-cases,
}
use native.Mathlib.Decide.{dec_lt}
use malloc_jt.Driver.Arrays.{get_elem?-some, set_elem?-Written}
use malloc_jt.Timing.{Double}
use malloc_jt.Timing.Sampler.{zeros, sift, store_sample, add_value, converged}

module _ {D : Type 0} (d : Double D) where
  pub sift-some :
      (pos : ℕ) (xs : List D)
      → pos < length xs
      → (ys : List D) × (sift d pos xs ≡ some ys) × (length ys ≡ length xs)
  unfolding sift
  sift-some zero xs h = (xs, refl, refl)
  sift-some (suc pos) xs h =
      let before = get_elem?-some xs pos (omega arith) in
      let here = get_elem?-some xs (suc pos) h in
      let one = set_elem?-Written xs pos here.0 (omega arith) in
      let two = set_elem?-Written one.array (suc pos) before.0 (omega (arith, one.size)) in
      elim (Bool-cases (d.lt here.0 before.0)) [
        | inl less ↦
            let r = sift-some pos two.array (omega (arith, one.size, two.size)) in
            (
              r.0,
              rw (sift, before.1, here.1, less, one.returns, two.returns) r.1,
              r.2 ∙ two.size ∙ one.size,
            )
        | inr more ↦ (xs, rw (sift, before.1, here.1, more), refl)
      ]

  pub add_some :
      (x : D) (k count : ℕ) (xs : List D)
      → length xs ≡ k
      → 0 < k
      → (ys : List D) × (add_value d x k count xs ≡ some ys) × (length ys ≡ k)
  unfolding add_value store_sample sift
  add_some x k count xs e pos = elim (dec_lt count k) [
    | yes h ↦
        let one = set_elem?-Written xs count x (omega (arith, e)) in
        let r = sift-some count one.array (omega (arith, e, one.size)) in
        (r.0, rw (add_value, store_sample, lt→ltb count k h, one.returns) r.1, r.2 ∙ one.size ∙ e)
    | no h ↦
        let last = get_elem?-some xs (k - 1) (omega (arith, e)) in
        let one = set_elem?-Written xs (k - 1) x (omega (arith, e)) in
        elim (Bool-cases (d.lt x last.0)) [
          | inl less ↦
              let r = sift-some (k - 1) one.array (omega (arith, e, one.size)) in
              (
                r.0,
                rw
                    (
                      add_value,
                      store_sample,
                      le→ltb count k (omega arith),
                      last.1,
                      less,
                      one.returns,
                    )
                    r.1,
                r.2 ∙ one.size ∙ e,
              )
          | inr more ↦ (
            xs,
            rw (add_value, store_sample, le→ltb count k (omega arith), last.1, more, sift),
            e,
          )
        ]
  ]

  pub converged-some :
      (epsilon : D) (k count : ℕ) (xs : List D)
      → length xs ≡ k
      → 0 < k
      → (b : Bool) × (converged d epsilon k count xs ≡ some b)
  unfolding converged
  converged-some epsilon k count xs e pos =
      let first = get_elem?-some xs 0 (omega (arith, e)) in
      let last = get_elem?-some xs (k - 1) (omega (arith, e)) in
      elim (Bool-cases (leb k count)) [
        | inl y ↦ (
          d.le last.0 (d.mul (d.add (d.of_long 1) epsilon) first.0),
          rw (converged, y, first.1, last.1),
        )
        | inr y ↦ (false, rw (converged, y))
      ]

  pub length-zeros : (n : ℕ) → length (zeros d n) ≡ n
  length-zeros zero = refl
  length-zeros (suc n) = ap (λ (k : ℕ). suc k) (length-zeros n)
