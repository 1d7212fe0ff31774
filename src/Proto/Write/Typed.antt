-- ===== src/Proto/Write/Typed.antt =====
-- What the writers of the extended types of net/proto.c append.
use void_cache.Prelude.{
  ℕ, zero, suc, ◌+◌, ◌/◌, ◌≤◌, ◌<◌, ◌≡◌, ◌^◌, arith, refl, ap, List, [], ◌∷◌, ◌++◌, Bool, true,
  length, length-append,
}
use void_cache.Proto.{Buf}
use void_cache.Proto.Decimal.{ℤ, pos, negsuc, decimal}
use void_cache.Proto.Decimal.Printed.{length-decimal}
use void_cache.Proto.Parse.{wire_magic}
use void_cache.Proto.Write.{crlf, resp_write_vc_typed, le_bytes, twos}
use void_cache.Proto.Write.Room.{IsBuf, append-bytes}
use void_cache.Proto.Write.Bytes.{Appends, buf_printf-bytes, then-Appends}

-- a bulk string of the header, the type and the payload
abbrev pub typed_bytes : ℕ → List ℕ → List ℕ
typed_bytes ty payload =
    ((((b'$' ∷ decimal (4 + 1 + length payload) ++ (13 ∷ 10 ∷ [])) ++ wire_magic) ++ (ty ∷ []))
      ++ payload)
    ++ (13 ∷ 10 ∷ [])

module _ (mem : ℕ → Bool) (all : (n : ℕ) → mem n ≡ true) where
  pub resp_write_vc_typed-bytes :
      (ty : ℕ) (payload : List ℕ) (b : Buf)
      → IsBuf b
      → length b.bytes + length payload + 40 ≤ 2 ^ 61
      → Appends (typed_bytes ty payload) b (resp_write_vc_typed mem ty payload b)
  unfolding resp_write_vc_typed crlf
  resp_write_vc_typed-bytes ty payload b v total =
      let head = b'$' ∷ decimal (4 + 1 + length payload) ++ (13 ∷ 10 ∷ []) in
      let n = length-append (decimal (4 + 1 + length payload)) (13 ∷ 10 ∷ []) in
      let d = length-decimal (4 + 1 + length payload) (omega (arith, total)) in
      let m = length-append head wire_magic in
      let t = length-append (head ++ wire_magic) (ty ∷ []) in
      let p = length-append ((head ++ wire_magic) ++ (ty ∷ [])) payload in
      then-Appends mem all (((head ++ wire_magic) ++ (ty ∷ [])) ++ payload) (13 ∷ 10 ∷ []) b _ _
        (then-Appends mem all ((head ++ wire_magic) ++ (ty ∷ [])) payload b _ _
          (then-Appends mem all (head ++ wire_magic) (ty ∷ []) b _ _
            (then-Appends mem all head wire_magic b _ _
              (buf_printf-bytes mem all head b v (omega (arith, n, d)) (omega (arith, n, d, total)))
              (λ b' v' e.
                append-bytes mem all wire_magic b' v'
                  (omega (arith, ap length e, length-append b.bytes head, n, d, total))))
            (λ b' v' e. append-bytes mem all (ty ∷ []) b' v' (
              omega
                (arith, ap length e, length-append b.bytes (head ++ wire_magic), m, n, d, total))))
          (λ b' v' e. append-bytes mem all payload b' v' (
            omega (
              arith,
              ap length e,
              length-append b.bytes ((head ++ wire_magic) ++ (ty ∷ [])),
              t,
              m,
              n,
              d,
              total,
            ))))
        (λ b' v' e. append-bytes mem all (13 ∷ 10 ∷ []) b' v' (
          omega (
            arith,
            ap length e,
            length-append b.bytes (((head ++ wire_magic) ++ (ty ∷ [])) ++ payload),
            p,
            t,
            m,
            n,
            d,
            total,
          )))

-- a value in the range of `int64_t`
abbrev pub IsInt64 : ℤ → Type 0
IsInt64 (pos n) = n < 2 ^ 63
IsInt64 (negsuc n) = n < 2 ^ 63

pub twos-lt : (z : ℤ) → IsInt64 z → twos z < 2 ^ 64
unfolding twos
twos-lt (pos n) h = omega arith
twos-lt (negsuc n) h = omega arith

pub length-le_bytes : (n v : ℕ) → length (le_bytes n v) ≡ n
unfolding le_bytes
length-le_bytes zero v = refl
length-le_bytes (suc n) v = omega (arith, length-le_bytes n (v / 256))
