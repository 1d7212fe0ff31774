-- ===== src/Prelude/Words.antt =====
-- `^` and `|` of words: the lowest digit, and the bound that both operands share.
use Prim.Native.Nat.{
  ℕ, zero, suc, ◌+◌, ◌*◌, ◌/◌, ◌%◌, ◌^◌, ◌<◌, max, differ, bit_or, bit_xor, bit_or-bitwise,
  bit_xor-bitwise,
}
use void_cache.Prelude.Digits.{digits-lowest}
use mathlib.Core.Path.{◌≡◌}
use native.Mathlib.Nat.{pow-suc}
use native.Mathlib.Omega.{arith}

xor_lowest : (a b : ℕ) → bit_xor a b ≡ differ (a % 2) (b % 2) + 2 * bit_xor (a / 2) (b / 2)
xor_lowest a b = simp bit_xor-bitwise (digits-lowest (λ y. y) differ (λ y. grind arith) a b)

or_lowest : (a b : ℕ) → bit_or a b ≡ max (a % 2) (b % 2) + 2 * bit_or (a / 2) (b / 2)
or_lowest a b = simp bit_or-bitwise (digits-lowest (λ y. y) max (λ y. omega arith) a b)

differ-lt_two : (x y : ℕ) → x < 2 → y < 2 → differ x y < 2
differ-lt_two zero y p q = q
differ-lt_two (suc zero) zero p q = omega arith
differ-lt_two (suc zero) (suc zero) p q = omega arith
differ-lt_two (suc zero) (suc (suc y)) p q = absurd (omega arith)
differ-lt_two (suc (suc x)) y p q = absurd (omega arith)

-- The exclusive or of two words of `k` bits has `k` bits.
pub bit_xor-lt : (k a b : ℕ) → a < 2 ^ k → b < 2 ^ k → bit_xor a b < 2 ^ k
bit_xor-lt zero a b p q =
    let a0 : a ≡ 0 = omega arith in let b0 : b ≡ 0 = omega arith in rw (a0, b0) (omega arith)
bit_xor-lt (suc k) a b p q =
    let p' = rw pow-suc at p in
    let q' = rw pow-suc at q in
    rw pow-suc (
      omega (
        arith,
        xor_lowest a b,
        differ-lt_two (a % 2) (b % 2) (omega arith) (omega arith),
        bit_xor-lt k (a / 2) (b / 2) (omega arith) (omega arith),
      ))

-- The or of two words of `k` bits has `k` bits.
pub bit_or-lt : (k a b : ℕ) → a < 2 ^ k → b < 2 ^ k → bit_or a b < 2 ^ k
bit_or-lt zero a b p q =
    let a0 : a ≡ 0 = omega arith in let b0 : b ≡ 0 = omega arith in rw (a0, b0) (omega arith)
bit_or-lt (suc k) a b p q =
    let p' = rw pow-suc at p in
    let q' = rw pow-suc at q in
    rw pow-suc
      (omega (arith, or_lowest a b, bit_or-lt k (a / 2) (b / 2) (omega arith) (omega arith)))
