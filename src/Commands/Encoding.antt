-- ===== src/Commands/Encoding.antt =====
-- The typed values of net/commands.c: what VCSET and INCR store is what VCGET and INCR read back.
use void_cache.Prelude.{
  max, ℕ, zero, suc, ◌+◌, ◌/◌, ◌^◌, ◌≤◌, ◌<◌, ◌≡◌, ◌∙◌, refl, ap, arith, List, [], ◌∷◌, ◌++◌, some,
  Bool, true, false, not, ◌==◌, ◌||◌, if◌then◌else◌, codes, length, take, ltb, bytes_eq,
  take-append, length-append, append_assoc,
}
use void_cache.Proto.{vc_buf_new}
use void_cache.Proto.Decimal.{skip_space, ℤ, pos, negsuc, decimal}
use void_cache.Proto.Decimal.Printed.{AreDigits, decimal-AreDigits}
use void_cache.Proto.Parse.{wire_magic, until_nul}
use void_cache.Proto.Write.{le_bytes, twos}
use void_cache.Proto.Write.Typed.{
  typed_bytes, resp_write_vc_typed-bytes, IsInt64, twos-lt, length-le_bytes,
}
use void_cache.Commands.Guard.{strtoll_value, signed_value, negated, at_most, leading, is_word}
use void_cache.Commands.Reply.{Host, Reply, write}
use void_cache.Commands.Values.{is_typed}
use void_cache.Commands.Counters.{from_le, signed_word, typed_int, current}
use void_cache.Commands.Typed.{VcType, encoded, behind_cr, payload_of, typed_value, decoded}

pub from_le-le_bytes : (n v : ℕ) → v < 256 ^ n → from_le (le_bytes n v) ≡ v
unfolding from_le le_bytes
from_le-le_bytes zero v h = omega arith
from_le-le_bytes (suc n) v h = omega (arith, from_le-le_bytes n (v / 256) (below n v h))
  where
    below : (n v : ℕ) → v < 256 ^ suc n → v / 256 < 256 ^ n
    below n v h = omega arith

pub signed_word-twos : (z : ℤ) → IsInt64 z → signed_word (twos z) ≡ z
unfolding signed_word twos
signed_word-twos (pos n) h = ground arith
signed_word-twos (negsuc n) h = ground arith

-- the digits in front of a line end
behind_cr-digits :
    (ds rest : List ℕ) → AreDigits ds → behind_cr (ds ++ (13 ∷ 10 ∷ rest)) ≡ some rest
unfolding behind_cr
behind_cr-digits [] rest d = refl
behind_cr-digits (c ∷ cs) rest (low, high, d) =
    let other : (c == 13) ≡ false = ground arith in
    rw (other, behind_cr) (behind_cr-digits cs rest d)

behind_cr-dollar :
    (ds rest : List ℕ) → AreDigits ds → behind_cr (b'$' ∷ ds ++ (13 ∷ 10 ∷ rest)) ≡ some rest
unfolding behind_cr
behind_cr-dollar ds rest d = behind_cr-digits ds rest d

at_most-lt : (n : ℕ) → at_most n < 2 ^ 63
unfolding at_most
at_most-lt n = ground arith

negated-IsInt64 : (n : ℕ) → IsInt64 (negated n)
unfolding negated
negated-IsInt64 zero = omega arith
negated-IsInt64 (suc n) = at_most-lt n

signed_value-IsInt64 : (cs : List ℕ) → IsInt64 (signed_value cs)
unfolding signed_value
signed_value-IsInt64 [] = omega arith
signed_value-IsInt64 (c ∷ cs) = by_sign (c == b'-') (c == b'+')
  where
    by_sign :
        (minus plus : Bool)
        → IsInt64 (
            if minus
            then negated (leading 0 cs)
            else if plus
            then pos (at_most (leading 0 cs))
            else pos (at_most (leading 0 (c ∷ cs))))
    by_sign true plus = negated-IsInt64 (leading 0 cs)
    by_sign false true = at_most-lt (leading 0 cs)
    by_sign false false = at_most-lt (leading 0 (c ∷ cs))

pub strtoll_value-IsInt64 : (a : List ℕ) → IsInt64 (strtoll_value a)
unfolding strtoll_value
strtoll_value-IsInt64 a = signed_value-IsInt64 (skip_space a)

-- The integer that INCR stores is the one that the next INCR starts from.
pub current-typed_int : (w : ℕ) → w < 2 ^ 64 → current (typed_int w) ≡ w
unfolding current typed_int is_typed bytes_eq le_bytes
current-typed_int w h = from_le-le_bytes 8 w h

typed_bytes-shape :
    (ty : ℕ) (payload : List ℕ)
    → typed_bytes ty payload
      ≡ b'$' ∷ decimal (4 + 1 + length payload)
        ++ (13 ∷ 10 ∷ wire_magic ++ (ty ∷ payload ++ (13 ∷ 10 ∷ [])))
typed_bytes-shape ty payload = simp append_assoc

-- the payload of a bulk string of an extended type
payload_of-typed :
    (ty : ℕ) (payload : List ℕ)
    → payload_of (typed_bytes ty payload) ≡ some (wire_magic ++ ty ∷ payload)
unfolding payload_of
payload_of-typed ty payload =
    let ds = decimal (4 + 1 + length payload) in
    let rest = wire_magic ++ (ty ∷ payload ++ (13 ∷ 10 ∷ [])) in
    let found : behind_cr (b'$' ∷ ds ++ (13 ∷ 10 ∷ rest)) ≡ some rest =
      behind_cr-dollar ds rest (decimal-AreDigits (4 + 1 + length payload)) in
    ap payload_of (typed_bytes-shape ty payload)
    ∙ rw (found, payload_of)
        (ap some (
          take-append (wire_magic ++ ty ∷ payload) (13 ∷ 10 ∷ []) _
            (omega (arith, length-append payload (13 ∷ 10 ∷ [])))))

-- what VCGET replies to a value that VCSET has stored under a type name
abbrev pub shown : Host → VcType → List ℕ → List ℕ × Reply
shown h VcType.int val = (codes "int", Reply.integer (strtoll_value val))
shown h VcType.float val = (codes "float", Reply.double (h.strtod val))
shown h VcType.bool val = (
  codes "bool",
  Reply.boolean (is_word val (codes "TRUE") || bytes_eq (until_nul val) (codes "1")),
)
shown h VcType.json val = (codes "json", Reply.bulk val)
shown h VcType.binary val = (codes "binary", Reply.bulk val)
shown h VcType.string val = (codes "binary", Reply.bulk val)

-- the header and the bytes of a value
abbrev pub stored_form : Host → VcType → List ℕ → List ℕ
stored_form h VcType.int val = wire_magic ++ b'i' ∷ le_bytes 8 (twos (strtoll_value val))
stored_form h VcType.float val = wire_magic ++ b'd' ∷ le_bytes 8 (h.strtod val)
stored_form h VcType.bool val =
    wire_magic
    ++ b'b'
      ∷ (if is_word val (codes "TRUE") || bytes_eq (until_nul val) (codes "1") then 1 else 0)
      ∷ []
stored_form h VcType.json val = wire_magic ++ b'j' ∷ val
stored_form h VcType.binary val = wire_magic ++ b'B' ∷ val
stored_form h VcType.string val = wire_magic ++ b'B' ∷ val

pub stored_form-le :
    (h : Host) (t : VcType) (val : List ℕ) → length (stored_form h t val) ≤ 5 + max 8 (length val)
stored_form-le h VcType.int val = omega (arith, length-le_bytes 8 (twos (strtoll_value val)))
stored_form-le h VcType.float val = omega (arith, length-le_bytes 8 (h.strtod val))
stored_form-le h VcType.bool val = omega arith
stored_form-le h VcType.json val = omega arith
stored_form-le h VcType.binary val = omega arith
stored_form-le h VcType.string val = omega arith

typed_value-header :
    (h : Host) (ty : ℕ) (payload : List ℕ)
    → typed_value h (wire_magic ++ ty ∷ payload) ≡ decoded h ty payload
unfolding typed_value is_typed bytes_eq
typed_value-header h ty payload =
    let long : ltb 4 (suc (suc (suc (suc (suc (length payload)))))) ≡ true = ground arith in
    rw (long) refl

-- eight bytes are there to be read
take-le_bytes :
    (w : ℕ) (more : List ℕ)
    → (take 8 (le_bytes 8 w) ≡ le_bytes 8 w) × (take 8 (le_bytes 8 w ++ more) ≡ le_bytes 8 w)
unfolding le_bytes
take-le_bytes w more = (refl, refl)

is_true : (b : Bool) → not ((if b then 1 else 0) == 0) ≡ b
is_true true = refl
is_true false = refl

module _ (h : Host) (all : (n : ℕ) → h.mem n ≡ true) where
  payload_of-write :
      (ty size : ℕ) (payload : List ℕ)
      → 0 < size
      → size ≤ 2 ^ 62
      → length payload + 40 ≤ 2 ^ 61
      → payload_of (write h false (Reply.typed ty payload) (vc_buf_new size)).1.bytes
        ≡ some (wire_magic ++ ty ∷ payload)
  unfolding write vc_buf_new
  payload_of-write ty size payload some_room small short =
      let (b', e, same, v) =
        resp_write_vc_typed-bytes h.mem all ty payload (vc_buf_new size)
          (record { some_room = some_room; inside = omega arith; small = small })
          (omega (arith, short)) in
      ap (λ w. payload_of w.1.bytes) e ∙ ap payload_of same ∙ payload_of-typed ty payload

  -- The bytes that VCSET hands to `vc_set` for a value of at most 2 ^ 60 bytes, and what VCGET makes of
  -- these bytes. Memory must not run out, and a double must have 64 bits.
  pub payload_of-typed_value :
      (t : VcType) (val : List ℕ)
      → length val ≤ 2 ^ 60
      → h.strtod val < 2 ^ 64
      → (payload_of (write h false (encoded h t val) (vc_buf_new (4 + 1 + length val + 16))).1.bytes
          ≡ some (stored_form h t val))
        × (typed_value h (stored_form h t val) ≡ shown h t val)
  unfolding encoded decoded
  payload_of-typed_value VcType.int val short double =
      let z = strtoll_value val in
      let bs = le_bytes 8 (twos z) in
      let back = from_le-le_bytes 8 (twos z) (twos-lt z (strtoll_value-IsInt64 val)) in
      let eight = (take-le_bytes (twos z) []).0 in
      (
        payload_of-write b'i' _ bs (omega arith) (omega arith)
            (omega (arith, length-le_bytes 8 (twos z))),
        typed_value-header h b'i' bs
            ∙ ap (λ n. (codes "int", Reply.integer n))
                (ap (λ xs. signed_word (from_le xs)) eight
                  ∙ ap signed_word back
                  ∙ signed_word-twos z (strtoll_value-IsInt64 val)),
      )
  payload_of-typed_value VcType.float val short double =
      let d = h.strtod val in
      let bs = le_bytes 8 d in
      (
        payload_of-write b'd' _ bs (omega arith) (omega arith) (omega (arith, length-le_bytes 8 d)),
        typed_value-header h b'd' bs
            ∙ ap (λ n. (codes "float", Reply.double n))
                (ap from_le (take-le_bytes d (h.beyond 8)).1 ∙ from_le-le_bytes 8 d double),
      )
  payload_of-typed_value VcType.bool val short double =
      let b = is_word val (codes "TRUE") || bytes_eq (until_nul val) (codes "1") in
      (
        payload_of-write b'b' _ ((if b then 1 else 0) ∷ []) (omega arith) (omega arith)
            (omega arith),
        typed_value-header h b'b' ((if b then 1 else 0) ∷ [])
            ∙ ap (λ v. (codes "bool", Reply.boolean v)) (is_true b),
      )
  payload_of-typed_value VcType.json val short double = (
    payload_of-write b'j' _ val (omega arith) (omega arith) (omega arith),
    typed_value-header h b'j' val,
  )
  payload_of-typed_value VcType.binary val short double = (
    payload_of-write b'B' _ val (omega arith) (omega arith) (omega arith),
    typed_value-header h b'B' val,
  )
  payload_of-typed_value VcType.string val short double = (
    payload_of-write b'B' _ val (omega arith) (omega arith) (omega arith),
    typed_value-header h b'B' val,
  )
