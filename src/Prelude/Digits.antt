-- ===== src/Prelude/Digits.antt =====
-- The recursion on binary digits that the native bit operations stand for: fuel that is enough
-- gives one value.
use Prim.Native.Nat.{ℕ, zero, suc, ◌+◌, ◌*◌, ◌/◌, ◌%◌, ◌≤◌, min, digits}
use mathlib.Core.Path.{◌≡◌, refl}
use native.Mathlib.Omega.{arith}

module _ (z : ℕ → ℕ) (f : ℕ → ℕ → ℕ) where
  enough : (bound a fuel b : ℕ) → a ≤ bound → a ≤ fuel → digits z f fuel a b ≡ digits z f a a b
  enough bound zero zero b small le = refl
  enough bound zero (suc fuel) b small le = refl
  enough bound (suc a) zero b small le = absurd (omega (arith, le))
  enough zero (suc a) (suc fuel) b small le = absurd (omega (arith, small))
  enough (suc bound) (suc a) (suc fuel) b small le =
      let with_fuel = enough bound (suc a / 2) fuel (b / 2) (omega arith) (omega arith) in
      let with_a = enough bound (suc a / 2) a (b / 2) (omega arith) (omega arith) in
      omega (arith, with_fuel, with_a)

  -- The lowest digit stands apart, if zero in front of `b` gives what the digits of `b` give.
  pub digits-lowest :
      ((b : ℕ) → z b ≡ f 0 (b % 2) + 2 * z (b / 2))
      → (a b : ℕ) → digits z f a a b ≡ f (a % 2) (b % 2) + 2 * digits z f (a / 2) (a / 2) (b / 2)
  digits-lowest at_zero zero b = omega (arith, at_zero b)
  digits-lowest at_zero (suc a) b =
      omega (arith, enough (suc a) (suc a / 2) a (b / 2) (omega arith) (omega arith))

-- no digit of zero is taken by `min`
pub digits-min-zero : (fuel a : ℕ) → digits (λ b. zero) min fuel a 0 ≡ 0
digits-min-zero zero a = refl
digits-min-zero (suc fuel) zero = refl
digits-min-zero (suc fuel) (suc a) = omega (arith, digits-min-zero fuel (suc a / 2))
