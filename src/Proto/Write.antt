-- ===== src/Proto/Write.antt =====
-- The writers of net/proto.c. Each appends to the buffer; one that fails returns -1, here `false`,
-- and leaves in the buffer what it has written. `mem` says which sizes `realloc` has.
pub mod Room
pub mod Bytes
pub mod Typed
use void_cache.Prelude.{
  ℕ, zero, suc, ◌+◌, ◌-◌, ◌*◌, ◌/◌, ◌%◌, ◌^◌, List, [], ◌∷◌, ◌++◌, Option, none, some, Bool, true,
  false, length, leb, ltb, if◌then◌else◌,
}
use void_cache.Proto.{Buf, vc_buf_grow}
use void_cache.Proto.Decimal.{ℤ, pos, negsuc, decimal}
use void_cache.Proto.Parse.{wire_magic}

-- the result of a writer, and the buffer
abbrev pub Written : Type 0
Written = Bool × Buf

-- `APPEND(b, s, n)` after the growth
pub put : Buf → List ℕ → Option Buf → Written
put b s none = (false, b)
put b s (some b') = (true, record b' { bytes = b'.bytes ++ s })

unfoldable pub append : (ℕ → Bool) → List ℕ → Buf → Written
unfolding put
append mem s b = put b s (vc_buf_grow mem b (length s))

-- a write, and the next one unless it has failed
unfoldable pub and_then : Written → (Buf → Written) → Written
and_then (false, b) next = (false, b)
and_then (true, b) next = next b

crlf : List ℕ
crlf = 13 ∷ 10 ∷ []

-- `buf_printf` on what `vsnprintf` makes of its arguments
pub buf_printf : (ℕ → Bool) → List ℕ → Buf → Written
buf_printf mem s b = if leb 256 (length s) then (false, b) else append mem s b

-- `%lld`
pub int_text : ℤ → List ℕ
int_text (pos n) = decimal n
int_text (negsuc n) = b'-' ∷ decimal (n + 1)

pub resp_write_ok : (ℕ → Bool) → Buf → Written
unfolding crlf
resp_write_ok mem b = append mem (b'+' ∷ b'O' ∷ b'K' ∷ crlf) b

pub resp_write_null : (ℕ → Bool) → Buf → Written
unfolding crlf
resp_write_null mem b = append mem (b'_' ∷ crlf) b

pub resp_write_null_compat : (ℕ → Bool) → Bool → Buf → Written
unfolding crlf
resp_write_null_compat mem resp3 b =
    append mem (if resp3 then b'_' ∷ crlf else b'$' ∷ b'-' ∷ b'1' ∷ crlf) b

pub resp_write_error : (ℕ → Bool) → List ℕ → List ℕ → Buf → Written
unfolding crlf buf_printf
resp_write_error mem code msg b = buf_printf mem (b'-' ∷ code ++ (b' ' ∷ msg ++ crlf)) b

pub resp_write_simple : (ℕ → Bool) → List ℕ → Buf → Written
unfolding crlf buf_printf
resp_write_simple mem s b = buf_printf mem (b'+' ∷ s ++ crlf) b

pub resp_write_integer : (ℕ → Bool) → ℤ → Buf → Written
unfolding crlf buf_printf int_text
resp_write_integer mem n b = buf_printf mem (b':' ∷ int_text n ++ crlf) b

pub resp_write_bool : (ℕ → Bool) → Bool → Buf → Written
unfolding crlf buf_printf
resp_write_bool mem v b = buf_printf mem (b'#' ∷ (if v then b't' else b'f') ∷ crlf) b

unfoldable pub resp_write_bulk : (ℕ → Bool) → List ℕ → Buf → Written
unfolding crlf buf_printf
resp_write_bulk mem s b =
    and_then (and_then (buf_printf mem (b'$' ∷ decimal (length s) ++ crlf) b) (append mem s))
      (append mem crlf)

-- the count is not negative, as in every call
unfoldable pub resp_write_array_header : (ℕ → Bool) → ℕ → Buf → Written
unfolding crlf buf_printf
resp_write_array_header mem count b = buf_printf mem (b'*' ∷ decimal count ++ crlf) b

unfoldable pub resp_write_map_header : (ℕ → Bool) → ℕ → Buf → Written
unfolding crlf buf_printf
resp_write_map_header mem pairs b = buf_printf mem (b'%' ∷ decimal pairs ++ crlf) b

unfoldable pub resp_write_vc_typed : (ℕ → Bool) → ℕ → List ℕ → Buf → Written
unfolding crlf buf_printf
resp_write_vc_typed mem ty payload b =
    and_then
      (and_then
        (and_then
          (and_then (buf_printf mem (b'$' ∷ decimal (4 + 1 + length payload) ++ crlf) b)
            (append mem wire_magic))
          (append mem (ty ∷ [])))
        (append mem payload))
      (append mem crlf)

-- `(uint8_t)(v >> (i * 8))` for the eight bytes of the two's complement `v`
unfoldable pub le_bytes : ℕ → ℕ → List ℕ
le_bytes zero v = []
le_bytes (suc n) v = (v % 256) ∷ le_bytes n (v / 256)

unfoldable pub twos : ℤ → ℕ
twos (pos n) = n
twos (negsuc n) = 2 ^ 64 - (n + 1)

unfoldable pub resp_write_vc_int64 : (ℕ → Bool) → ℤ → Buf → Written
unfolding le_bytes twos
resp_write_vc_int64 mem v b = resp_write_vc_typed mem b'i' (le_bytes 8 (twos v)) b

pub resp_write_vc_bool : (ℕ → Bool) → Bool → Buf → Written
resp_write_vc_bool mem v b = resp_write_vc_typed mem b'b' ((if v then 1 else 0) ∷ []) b

pub resp_write_vc_json : (ℕ → Bool) → List ℕ → Buf → Written
resp_write_vc_json mem json b = resp_write_vc_typed mem b'j' json b

pub resp_write_vc_binary : (ℕ → Bool) → List ℕ → Buf → Written
resp_write_vc_binary mem bytes b = resp_write_vc_typed mem b'B' bytes b

-- A write whose result is not looked at: the next one runs in any case.
and_always : Written → (Buf → Written) → Written
and_always (ok, b) next = next b

ascii_server : List ℕ
ascii_server = b's' ∷ b'e' ∷ b'r' ∷ b'v' ∷ b'e' ∷ b'r' ∷ []

-- the five pairs of a HELLO
hello_pairs : (ℕ → Bool) → List ℕ → List ℕ → Bool → Buf → Written
unfolding and_always ascii_server
hello_pairs mem ver id resp3 b =
    let w1 =
      and_always (resp_write_bulk mem ascii_server b)
        (resp_write_bulk mem (b'v' ∷ b'o' ∷ b'i' ∷ b'd' ∷ b'c' ∷ b'a' ∷ b'c' ∷ b'h' ∷ b'e' ∷ [])) in
    let w2 =
      and_always
        (and_always w1 (resp_write_bulk mem (b'v' ∷ b'e' ∷ b'r' ∷ b's' ∷ b'i' ∷ b'o' ∷ b'n' ∷ [])))
        (resp_write_bulk mem ver) in
    let w3 =
      and_always (and_always w2 (resp_write_bulk mem (b'p' ∷ b'r' ∷ b'o' ∷ b't' ∷ b'o' ∷ [])))
        (resp_write_integer mem (pos (if resp3 then 3 else 2))) in
    let w4 =
      and_always (and_always w3 (resp_write_bulk mem (b'i' ∷ b'd' ∷ [])))
        (resp_write_bulk mem id) in
    let w5 = and_always (and_always w4 (resp_write_bulk mem (b'm' ∷ b'o' ∷ b'd' ∷ b'e' ∷ []))) (
      resp_write_bulk mem
        (b's' ∷ b't' ∷ b'a' ∷ b'n' ∷ b'd' ∷ b'a' ∷ b'l' ∷ b'o' ∷ b'n' ∷ b'e' ∷ [])) in
    (true, w5.1)

pub resp_write_hello : (ℕ → Bool) → List ℕ → List ℕ → Bool → Buf → Written
unfolding hello_pairs
resp_write_hello mem ver id resp3 b =
    and_then (if resp3 then resp_write_map_header mem 5 b else resp_write_array_header mem 10 b)
      (hello_pairs mem ver id resp3)
