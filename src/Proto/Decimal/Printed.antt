-- ===== src/Proto/Decimal/Printed.antt =====
-- A printed number of net/proto.c, read back by `parse_int64`.
use void_cache.Prelude.{
  if_cases, ℕ, zero, suc, ◌+◌, ◌-◌, ◌*◌, ◌/◌, ◌%◌, ◌^◌, ◌≤◌, ◌<◌, ◌≡◌, ◌∙◌, arith, refl, List, [],
  ◌∷◌, some, true, false, length, leb, ltb, ◌==◌, ◌&&◌, ◌||◌,
}
use native.Mathlib.Nat.{pow-suc}
use void_cache.Proto.Decimal.{
  pos, digits_from, digits_of, positive, signed, skip_space, is_space, parse_int64, dec_from,
  decimal,
}

abbrev pub AreDigits : List ℕ → Type 0
AreDigits [] = Unit
AreDigits (c ∷ cs) = (48 ≤ c) × (c ≤ 57) × AreDigits cs

dec_from-AreDigits : (r n : ℕ) (tail : List ℕ) → AreDigits tail → AreDigits (dec_from r n tail)
unfolding dec_from
dec_from-AreDigits zero n tail d = d
dec_from-AreDigits (suc r) n tail d =
    if_cases AreDigits (n / 10 == 0) _ _ (λ _. (omega arith, omega arith, d))
      (λ _. dec_from-AreDigits r (n / 10) ((48 + n % 10) ∷ tail) (omega arith, omega arith, d))

digits_from-dec_from :
    (r n : ℕ) (tail : List ℕ) → n < r → digits_from 0 (dec_from r n tail) ≡ digits_from n tail
unfolding dec_from digits_from
digits_from-dec_from zero n tail h = absurd (omega arith)
digits_from-dec_from (suc r) n tail h =
    if_cases (λ cs. digits_from 0 cs ≡ digits_from n tail) (n / 10 == 0) _ _
      (λ last. digit 0 (ground (arith, last)))
      (λ first.
        digits_from-dec_from r (n / 10) _ (ground (arith, first)) ∙ digit (n / 10) (omega arith))
  where
    digit :
        (acc : ℕ)
        → acc * 10 + n % 10 ≡ n
        → digits_from acc ((48 + n % 10) ∷ tail) ≡ digits_from n tail
    digit acc e =
        let low : leb 48 (48 + n % 10) ≡ true = ground arith in
        let high : leb (48 + n % 10) 57 ≡ true = ground arith in
        let value : acc * 10 + (48 + n % 10 - 48) ≡ n = omega (arith, e) in
        rw (low, high, value) refl

length-dec_from :
    (k r n : ℕ) (tail : List ℕ) → n < 10 ^ suc k → length (dec_from r n tail) ≤ suc k + length tail
unfolding dec_from
length-dec_from k zero n tail h = omega arith
length-dec_from zero (suc r) n tail h =
    if_cases (λ cs. length cs ≤ 1 + length tail) (n / 10 == 0) ((48 + n % 10) ∷ tail) _
      (λ _. omega arith) (λ first. absurd (ground (arith, first, h)))
length-dec_from (suc k) (suc r) n tail h =
    let h' = rw pow-suc at h in
    if_cases (λ cs. length cs ≤ suc (suc k) + length tail) (n / 10 == 0) ((48 + n % 10) ∷ tail) _
      (λ _. omega arith)
      (λ _. omega (arith, length-dec_from k r (n / 10) ((48 + n % 10) ∷ tail) (omega (arith, h'))))

length-dec_from_pos : (r n : ℕ) (tail : List ℕ) → n < r → 0 < length (dec_from r n tail)
unfolding dec_from
length-dec_from_pos zero n tail h = absurd (omega arith)
length-dec_from_pos (suc r) n tail h =
    if_cases (λ cs. 0 < length cs) (n / 10 == 0) ((48 + n % 10) ∷ tail) _ (λ _. omega arith)
      (λ first. length-dec_from_pos r (n / 10) _ (ground (arith, first)))

digits_from-decimal : (n : ℕ) → digits_from 0 (decimal n) ≡ some n
unfolding decimal digits_from
digits_from-decimal n = digits_from-dec_from (n + 1) n [] (omega arith)

pub decimal-AreDigits : (n : ℕ) → AreDigits (decimal n)
unfolding decimal
decimal-AreDigits n = dec_from-AreDigits (n + 1) n [] tt

pub length-decimal_pos : (n : ℕ) → 0 < length (decimal n)
unfolding decimal
length-decimal_pos n = length-dec_from_pos (n + 1) n [] (omega arith)

pub length-decimal : (n : ℕ) → n < 10 ^ 19 → length (decimal n) ≤ 19
unfolding decimal
length-decimal n h = omega (arith, length-dec_from 18 (n + 1) n [] h)

-- a string of digits has no sign and no white space
signed_digits :
    (cs : List ℕ) (n : ℕ)
    → AreDigits cs
    → 0 < length cs
    → n < 2 ^ 63
    → digits_from 0 cs ≡ some n
    → signed (skip_space cs) ≡ some (pos n)
unfolding signed skip_space is_space digits_of positive
signed_digits [] n d h small e = absurd (omega (arith, h))
signed_digits (c ∷ cs) n (low, high, d) h small e =
    let not_space : (c == 32 || (leb 9 c && leb c 13)) ≡ false = ground arith in
    let not_minus : (c == b'-') ≡ false = ground arith in
    let not_plus : (c == b'+') ≡ false = ground arith in
    let fits : ltb n (2 ^ 63) ≡ true = ground arith in
    rw (not_space, not_minus, not_plus, e, fits) refl

-- A number below 2 ^ 63, printed by `%zu` or `%d`, is read back by `parse_int64`.
pub parse_int64-decimal : (n : ℕ) → n < 2 ^ 63 → parse_int64 (decimal n) ≡ some (pos n)
unfolding parse_int64
parse_int64-decimal n h =
    let long : 0 < length (decimal n) = length-decimal_pos n in
    let short : length (decimal n) ≤ 19 = length-decimal n (omega (arith, h)) in
    let guard : (length (decimal n) == 0 || leb 32 (length (decimal n))) ≡ false = ground arith in
    rw guard (signed_digits (decimal n) n (decimal-AreDigits n) long h (digits_from-decimal n))
