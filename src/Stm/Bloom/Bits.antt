-- ===== src/Stm/Bloom/Bits.antt =====
-- Setting a bit of a byte, by a table over all bytes.
use Prim.Native.Nat.{bit_and, bit_or}
use software_transactional_m.Prelude.{
  ℕ, zero, suc, ◌<◌, ◌≤◌, inl, inr, subst, Bool-cases, ◌^◌, ◌≡◌, refl, Bool, true, false, ◌&&◌,
  ◌||◌, not, arith, ltb, ◌==◌,
}

-- The test `p` succeeds at 0, ..., `top`.
up_to : (p : ℕ → Bool) (top : ℕ) → Bool
up_to p zero = p zero
up_to p (suc top) = up_to p top && p (suc top)

up_to_at : (p : ℕ → Bool) (top i : ℕ) → i ≤ top → up_to p top ≡ true → p i ≡ true
unfolding up_to
up_to_at p zero i le e = subst (λ k. p k ≡ true) (omega arith) e
up_to_at p (suc top) i le e = elim (Bool-cases (i == suc top)) [
  | inl last ↦ let same : i ≡ suc top = ground arith in rw same (ground arith)
  | inr earlier ↦ up_to_at p top i (ground arith) (ground arith)
]

bit_test : ℕ → ℕ → ℕ → Bool
bit_test b i j =
    ltb (bit_or b (2 ^ i)) 256
    && not (bit_and (bit_or b (2 ^ i)) (2 ^ i) == 0)
    && ((bit_and b (2 ^ j) == 0) || not (bit_and (bit_or b (2 ^ i)) (2 ^ j) == 0))

bit_table : up_to (λ b. up_to (λ i. up_to (λ j. bit_test b i j) 7) 7) 255 ≡ true
unfolding up_to bit_test
bit_table = refl

bit_test-true : (b i j : ℕ) → b < 256 → i < 8 → j < 8 → bit_test b i j ≡ true
bit_test-true b i j p q r =
    let for_byte =
      up_to_at (λ b. up_to (λ i. up_to (λ j. bit_test b i j) 7) 7) 255 b (omega arith) bit_table in
    up_to_at (λ j. bit_test b i j) 7 j (omega arith)
      (up_to_at (λ i. up_to (λ j. bit_test b i j) 7) 7 i (omega arith) for_byte)

pub bit_or-lt : (b i : ℕ) → b < 256 → i < 8 → bit_or b (2 ^ i) < 256
unfolding bit_test
bit_or-lt b i p q = ground (arith, bit_test-true b i 0)

-- The bit that is set can be seen.
pub bit_or_self : (b i : ℕ) → b < 256 → i < 8 → (bit_and (bit_or b (2 ^ i)) (2 ^ i) == 0) ≡ false
unfolding bit_test
bit_or_self b i p q = ground (arith, bit_test-true b i 0)

-- A bit that could be seen stays so.
pub bit_or_keeps :
    (b i j : ℕ)
    → b < 256
    → i < 8
    → j < 8
    → (bit_and b (2 ^ j) == 0) ≡ false
    → (bit_and (bit_or b (2 ^ i)) (2 ^ j) == 0) ≡ false
unfolding bit_test
bit_or_keeps b i j p q r h = ground (arith, bit_test-true b i j)
