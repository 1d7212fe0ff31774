-- ===== src/Proto/Write/Bytes.antt =====
-- What the writers of net/proto.c append, and that the parser reads it back.
use void_cache.Prelude.{
  ℕ, ◌+◌, ◌≤◌, ◌<◌, ◌≡◌, ◌∙◌, ◌^◌, arith, ap, List, [], ◌∷◌, ◌++◌, Bool, true, false, length, leb,
  length-append, append_assoc,
}
use void_cache.Proto.{Buf}
use void_cache.Proto.Decimal.{decimal}
use void_cache.Proto.Decimal.Printed.{length-decimal}
use void_cache.Proto.Write.{Written, and_then, buf_printf, crlf, resp_write_bulk}
use void_cache.Proto.Write.Room.{IsBuf, append-bytes}

-- a write that succeeds and appends just these bytes
abbrev pub Appends : List ℕ → Buf → Written → Type 0
Appends s b w = (b' : Buf) × (w ≡ (true, b')) × (b'.bytes ≡ b.bytes ++ s) × IsBuf b'

module _ (mem : ℕ → Bool) (all : (n : ℕ) → mem n ≡ true) where
  pub buf_printf-bytes :
      (s : List ℕ) (b : Buf)
      → IsBuf b
      → length s < 256
      → length b.bytes + length s ≤ 2 ^ 61
      → Appends s b (buf_printf mem s b)
  unfolding buf_printf
  buf_printf-bytes s b v short total =
      let fits : leb 256 (length s) ≡ false = ground (arith, short) in
      rw fits (append-bytes mem all s b v total)

  -- two writes after one another
  pub then-Appends :
      (s t : List ℕ) (b : Buf) (w : Written) (next : Buf → Written)
      → Appends s b w
      → ((b' : Buf) → IsBuf b' → b'.bytes ≡ b.bytes ++ s → Appends t b' (next b'))
      → Appends (s ++ t) b (and_then w next)
  unfolding and_then
  then-Appends s t b w next (b', e, same, v) rest =
      let (b'', e'', same'', v'') = rest b' v same in
      rw e (b'', e'', same'' ∙ ap (λ x. x ++ t) same ∙ append_assoc b.bytes s t, v'')

  -- A bulk string is written as `$`, its length, a line end, its bytes and a line end, if `realloc`
  -- does not fail and the buffer stays below 2 ^ 61 bytes.
  pub resp_write_bulk-bytes :
      (s : List ℕ) (b : Buf)
      → IsBuf b
      → length b.bytes + length s + 30 ≤ 2 ^ 61
      → Appends
          (((b'$' ∷ decimal (length s) ++ (13 ∷ 10 ∷ [])) ++ s) ++ (13 ∷ 10 ∷ []))
          b
          (resp_write_bulk mem s b)
  unfolding resp_write_bulk crlf
  resp_write_bulk-bytes s b v total =
      let head = b'$' ∷ decimal (length s) ++ (13 ∷ 10 ∷ []) in
      let n = length-append (decimal (length s)) (13 ∷ 10 ∷ []) in
      let d = length-decimal (length s) (omega (arith, total)) in
      then-Appends (head ++ s) (13 ∷ 10 ∷ []) b _ _
        (then-Appends head s b _ _
          (buf_printf-bytes head b v (omega (arith, n, d)) (omega (arith, n, d, total)))
          (λ b' v' e.
            append-bytes mem all s b' v'
              (omega (arith, ap length e, length-append b.bytes head, n, d, total))))
        (λ b' v' e. append-bytes mem all (13 ∷ 10 ∷ []) b' v' (
          omega (
            arith,
            ap length e,
            length-append b.bytes (head ++ s),
            length-append head s,
            n,
            d,
            total,
          )))
