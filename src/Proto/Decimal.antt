-- ===== src/Proto/Decimal.antt =====
-- Decimal numbers in net/proto.c: `parse_int64`, with the `strtoll` it calls, and the `%zu` and
-- `%d` of the writers.
pub mod Printed
use void_cache.Prelude.{
  ℕ, zero, suc, ◌+◌, ◌-◌, ◌*◌, ◌/◌, ◌%◌, ◌^◌, List, [], ◌∷◌, ◌++◌, Option, none, some, ◌>>=◌, Bool,
  true, false, length, leb, ltb, ◌==◌, ◌&&◌, ◌||◌, if◌then◌else◌,
}

-- an int64_t
pub data ℤ : Type 0 where
  pos negsuc : ℕ → ℤ

-- `isspace`
unfoldable pub is_space : ℕ → Bool
is_space c = c == 32 || (leb 9 c && leb c 13)

unfoldable pub skip_space : List ℕ → List ℕ
unfolding is_space
skip_space [] = []
skip_space (c ∷ cs) = let rest = skip_space cs in if is_space c then rest else c ∷ cs

-- the value of a string of digits behind the value `acc`
digits_from : ℕ → List ℕ → Option ℕ
digits_from acc [] = some acc
digits_from acc (c ∷ cs) =
    let rest = digits_from (acc * 10 + (c - 48)) cs in if leb 48 c && leb c 57 then rest else none

-- at least one digit, and nothing else: else `strtoll` stops before the end
digits_of : List ℕ → Option ℕ
digits_of [] = none
digits_of (c ∷ cs) = digits_from 0 (c ∷ cs)

-- ERANGE beyond the ends of the range
positive : ℕ → Option ℤ
positive n = if ltb n (2 ^ 63) then some (pos n) else none

negative : ℕ → Option ℤ
negative zero = some (pos 0)
negative (suc n) = if ltb n (2 ^ 63) then some (negsuc n) else none

signed : List ℕ → Option ℤ
unfolding digits_of
signed [] = none
signed (c ∷ cs) =
    if c == b'-'
    then digits_of cs >>= negative
    else if c == b'+'
    then digits_of cs >>= positive
    else digits_of (c ∷ cs) >>= positive

-- `parse_int64`, on the bytes before the line end; `none` is -1.
unfoldable pub parse_int64 : List ℕ → Option ℤ
unfolding signed skip_space digits_from is_space positive negative
parse_int64 s = if length s == 0 || leb 32 (length s) then none else signed (skip_space s)

-- The decimal digits of `n` before those of `tail`; `n + 1` rounds are enough.
dec_from : ℕ → ℕ → List ℕ → List ℕ
dec_from zero n tail = tail
dec_from (suc rounds) n tail =
    let digit = (48 + n % 10) ∷ tail in
    let more = dec_from rounds (n / 10) digit in if n / 10 == 0 then digit else more

-- `%zu`, and `%d` of a number that is not negative
unfoldable pub decimal : ℕ → List ℕ
unfolding dec_from
decimal n = dec_from (n + 1) n []
