-- ===== src/Stm/Overlap/Skew.antt =====
-- Two overlapping ends of Stm.Overlap that both succeed.
use software_transactional_m.Prelude.{ℕ, ◌≡◌, refl, arith}
use software_transactional_m.Stm.Overlap.{
  Ends, Reach, here, next, first_goes, second_goes, both_call, acquires, ticks_next, ticks,
  finds_old, finds_free, copies, stamps, unlocks, committed,
}

-- Write skew. Whatever the two transactions compute from what they have read, the first one `f a` from
-- the value `a` of `x` and the second one `g b` from the value `b` of `y`, there is an order of the
-- accesses of their two ends in which both commit, so that `y` holds `f a` and `x` holds `g b`: each has
-- computed from the value that the other one replaced.
pub both_commit :
    (f g : ℕ → ℕ) (rv a b : ℕ)
    → (s : Ends) × Reach rv (f a) (g b) (both_call rv a b) s
      × (s.first ≡ committed)
      × (s.second ≡ committed)
      × (s.x.value ≡ g b)
      × (s.y.value ≡ f a)
both_commit f g rv a b =
    let r₀ : Reach rv (f a) (g b) (both_call rv a b) (both_call rv a b) = here in
    let r₁ = next r₀ (second_goes (acquires refl)) in
    let r₂ = next r₁ (second_goes (ticks_next refl)) in
    let r₃ = next r₂ (first_goes (acquires refl)) in
    let r₄ = next r₃ (first_goes (ticks (λ e. omega arith))) in
    let r₅ = next r₄ (first_goes (finds_old (omega arith))) in
    let r₆ = next r₅ (second_goes copies) in
    let r₇ = next r₆ (second_goes stamps) in
    let r₈ = next r₇ (second_goes unlocks) in
    let r₉ = next r₈ (first_goes (finds_free refl)) in
    let r₁₀ = next r₉ (first_goes copies) in
    let r₁₁ = next r₁₀ (first_goes stamps) in
    (_, next r₁₁ (first_goes unlocks), refl, refl, refl, refl)
