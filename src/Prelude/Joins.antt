-- ===== src/Prelude/Joins.antt =====
-- A number with `k` zeros behind it, joined with one of at most `k` digits.
use Prim.Native.Nat.{ℕ, zero, suc, ◌+◌, ◌*◌, ◌/◌, ◌%◌, ◌^◌, ◌<◌, max, bit_or, bit_or-bitwise}
use void_cache.Prelude.Digits.{digits-lowest}
use mathlib.Core.Path.{◌≡◌, ◌∙◌}
use native.Mathlib.Nat.{pow-suc}
use native.Mathlib.Omega.{arith}

-- The lowest digit of `a | b`, and the digits above it.
or_lowest : (a b : ℕ) → bit_or a b ≡ max (a % 2) (b % 2) + 2 * bit_or (a / 2) (b / 2)
or_lowest a b = simp bit_or-bitwise (digits-lowest (λ y. y) max (λ y. omega arith) a b)

or_zero : (a : ℕ) (fuel : ℕ) → a < suc fuel → bit_or a 0 ≡ a
or_zero zero fuel h = simp bit_or-bitwise (omega arith)
or_zero (suc a) zero h = absurd (omega (arith, h))
or_zero (suc a) (suc fuel) h =
    omega (arith, or_lowest (suc a) 0, or_zero (suc a / 2) fuel (omega (arith, h)))

halves : (a p : ℕ) → (a * (p * 2) / 2 ≡ a * p) × (a * (p * 2) % 2 ≡ 0)
halves a p = (grind arith, grind arith)

-- `a` shifted by `k` digits and joined with `b` below `2 ^ k` is their sum.
pub bit_or_shift : (k a b : ℕ) → b < 2 ^ k → bit_or (a * 2 ^ k) b ≡ a * 2 ^ k + b
bit_or_shift zero a zero h = or_zero (a * 2 ^ 0) (a * 2 ^ 0) (omega arith) ∙ by_zero
  where
    by_zero : a * 2 ^ 0 ≡ a * 2 ^ 0 + 0
    by_zero = omega arith
bit_or_shift zero a (suc b) h = absurd (omega (arith, h))
bit_or_shift (suc k) a b h =
    let p = 2 ^ k in
    let less : b < p * 2 = rw pow-suc at h in
    let e = halves a p in
    rw
      (pow-suc, or_lowest (a * (p * 2)) b, e.0, e.1, bit_or_shift k a (b / 2) (omega (arith, less)))
      (omega (arith, e.0, e.1))
