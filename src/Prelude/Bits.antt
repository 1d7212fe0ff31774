-- ===== src/Prelude/Bits.antt =====
-- Masks: `x & (cap - 1)` for a power of two `cap`.
use Prim.Native.Nat.{ℕ, zero, suc, ◌+◌, ◌-◌, ◌*◌, ◌/◌, ◌%◌, ◌^◌, ◌<◌, min, bit_and, bit_and-bitwise}
use void_cache.Prelude.Digits.{digits-lowest, digits-min-zero}
use mathlib.Core.Path.{◌≡◌}
use native.Mathlib.Nat.{pow-suc}
use native.Mathlib.Omega.{arith}

-- The lowest digit of `a & b`, and the digits above it.
and_lowest : (a b : ℕ) → bit_and a b ≡ min (a % 2) (b % 2) + 2 * bit_and (a / 2) (b / 2)
and_lowest a b = simp bit_and-bitwise (digits-lowest (λ y. zero) min (λ y. omega arith) a b)

mod_double : (a p : ℕ) → 0 < p → a % (p * 2) ≡ (a / 2 % p) * 2 + a % 2
mod_double a p h = grind arith

pub two-pow_pos : (k : ℕ) → 0 < 2 ^ k
two-pow_pos zero = omega arith
two-pow_pos (suc k) = rw pow-suc (omega (arith, two-pow_pos k))

half_mask : (p : ℕ) → 0 < p → ((p * 2 - 1) / 2 ≡ p - 1) × ((p * 2 - 1) % 2 ≡ 1)
half_mask p h = (omega arith, omega arith)

-- The mask of `k` ones keeps the remainder by `2 ^ k`.
pub bit_and_mask : (k a : ℕ) → bit_and a (2 ^ k - 1) ≡ a % 2 ^ k
bit_and_mask zero a = omega (arith, bit_and-bitwise a 0, digits-min-zero a a)
bit_and_mask (suc k) a =
    let p = 2 ^ k in
    let h = half_mask p (two-pow_pos k) in
    rw (pow-suc, and_lowest a (p * 2 - 1), h.0, h.1, bit_and_mask k (a / 2))
      (omega (arith, mod_double a p (two-pow_pos k)))

-- `cap` is a power of two.
abbrev pub IsPow2 : ℕ → Type 0
IsPow2 cap = (k : ℕ) × (cap ≡ 2 ^ k)

pub mask-mod : (x cap : ℕ) → IsPow2 cap → bit_and x (cap - 1) ≡ x % cap
mask-mod x cap (k, e) = rw e (bit_and_mask k x)

pub IsPow2-pos : (cap : ℕ) → IsPow2 cap → 0 < cap
IsPow2-pos cap (k, e) = rw e (two-pow_pos k)
