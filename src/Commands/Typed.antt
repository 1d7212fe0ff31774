-- ===== src/Commands/Typed.antt =====
-- VCSET and VCGET of net/commands.c: values behind a header that gives their type.
use void_cache.Prelude.{
  ℕ, ◌+◌, ◌-◌, List, [], ◌∷◌, ◌++◌, Option, none, some, false, not, ◌||◌, if◌then◌else◌, codes,
  ◌==◌, bytes_eq, length, take, drop, get_or,
}
use void_cache.Auth.{acl_read, acl_write}
use void_cache.Cache.{vc_set}
use void_cache.Cache.Get.{vc_get}
use void_cache.Proto.{vc_buf_new}
use void_cache.Proto.Parse.{Arg, until_nul}
use void_cache.Proto.Write.{le_bytes, twos}
use void_cache.Commands.Guard.{
  Session, need_auth, guarded, wrong_count_text, oom_text, strtoll_value, is_word, is_ok,
}
use void_cache.Commands.Reply.{Host, Reply, err, write, send, choose}
use void_cache.Commands.Values.{with_cache, is_typed}
use void_cache.Commands.Counters.{from_le, signed_word}

-- VC_TYPE_*, as far as VCSET has them
pub data VcType : Type 0 where
  int float bool json binary string : VcType

unfoldable pub type_of_name : List ℕ → Option VcType
type_of_name tname =
    choose tname
      ((codes "INT", some VcType.int)
        ∷ (codes "FLOAT", some VcType.float)
        ∷ (codes "BOOL", some VcType.bool)
        ∷ (codes "JSON", some VcType.json)
        ∷ (codes "BINARY", some VcType.binary)
        ∷ (codes "STRING", some VcType.string)
        ∷ [])
      none

-- the call that encodes the value; `json` and the others take all of its bytes
unfoldable pub encoded : Host → VcType → List ℕ → Reply
encoded h VcType.int val = Reply.typed b'i' (le_bytes 8 (twos (strtoll_value val)))
encoded h VcType.float val = Reply.typed b'd' (le_bytes 8 (h.strtod val))
encoded h VcType.bool val =
    Reply.typed b'b'
      ((if is_word val (codes "TRUE") || bytes_eq (until_nul val) (codes "1") then 1 else 0) ∷ [])
encoded h VcType.json val = Reply.typed b'j' val
encoded h VcType.binary val = Reply.typed b'B' val
encoded h VcType.string val = Reply.typed b'B' val

-- what stands behind the first CR and the byte after it
unfoldable pub behind_cr : List ℕ → Option (List ℕ)
behind_cr [] = none
behind_cr (c ∷ cs) = let rest = behind_cr cs in if c == 13 then some (drop 1 cs) else rest

-- The payload without its line end. A writer that fails leaves at most the header or at least four
-- bytes behind it, so the subtraction does not wrap around.
unfoldable pub payload_of : List ℕ → Option (List ℕ)
unfolding behind_cr
payload_of wire = elim (behind_cr wire) [
  | none ↦ none
  | some [] ↦ none
  | some (c ∷ cs) ↦ some (take (length (c ∷ cs) - 2) (c ∷ cs))
]

unfoldable pub vcset_store : Host → Session → List ℕ → Option (List ℕ) → Session
vcset_store h s key none = send h (Reply.ok ∷ []) s
vcset_store h s key (some payload) =
    send h (Reply.ok ∷ []) (with_cache s (vc_set h.env s.cache key payload 0).1)

unfoldable pub vcset_as : Host → Session → List ℕ → Option VcType → List ℕ → Session
unfolding vcset_store encoded payload_of
vcset_as h s key none val =
    send h (err (codes "unknown type; use int|float|bool|json|binary|string")) s
vcset_as h s key (some t) val =
    if h.env.malloc_ok
    then vcset_store h s key (
        payload_of (write h false (encoded h t val) (vc_buf_new (4 + 1 + length val + 16))).1.bytes)
    else send h (err oom_text) s

unfoldable pub vcset_args : Host → Session → List Arg → Session
unfolding vcset_as type_of_name
vcset_args h s (name ∷ key ∷ tname ∷ val ∷ others) =
    vcset_as h s key.bytes (type_of_name tname.bytes) val.bytes
vcset_args h s [] = send h (err (codes "Usage: VCSET key type value")) s
vcset_args h s (name ∷ []) = send h (err (codes "Usage: VCSET key type value")) s
vcset_args h s (name ∷ a ∷ []) = send h (err (codes "Usage: VCSET key type value")) s
vcset_args h s (name ∷ a ∷ b ∷ []) = send h (err (codes "Usage: VCSET key type value")) s

unfoldable pub cmd_vcset : Host → Session → List Arg → Session
unfolding vcset_args
cmd_vcset h s args = guarded (need_auth h.mem s acl_write) (vcset_args h s args)

-- the type name and the value that VCGET replies to a type byte and its payload
unfoldable pub decoded : Host → ℕ → List ℕ → List ℕ × Reply
unfolding from_le signed_word
decoded h t payload =
    if t == b'i'
    then (codes "int", Reply.integer (signed_word (from_le (take 8 payload))))
    else if t == b'd'
    then (codes "float", Reply.double (from_le (take 8 (payload ++ h.beyond 8))))
    else if t == b'b'
    then (codes "bool", Reply.boolean (not (get_or (payload ++ h.beyond 1) 0 0 == 0)))
    else if t == b'j'
    then (codes "json", Reply.bulk payload)
    else (codes "binary", Reply.bulk payload)

unfoldable pub typed_value : Host → List ℕ → List ℕ × Reply
unfolding decoded is_typed
typed_value h v =
    if is_typed v then decoded h (get_or v 4 0) (drop 5 v) else (codes "string", Reply.bulk v)

-- the map of VCGET
unfoldable pub value_map : List ℕ × Reply → List Reply
value_map (name, r) =
    Reply.map 2 ∷ Reply.bulk (codes "type") ∷ Reply.bulk name ∷ Reply.bulk (codes "value") ∷ r ∷ []

unfoldable pub vcget_args : Host → Session → List Arg → Session
unfolding typed_value value_map is_ok
vcget_args h s (name ∷ key ∷ []) =
    let ((e, val), c) = vc_get h.env.now s.cache key.bytes in
    send h (if is_ok e then value_map (typed_value h val) else Reply.null ∷ []) (with_cache s c)
vcget_args h s [] = send h (err wrong_count_text) s
vcget_args h s (name ∷ []) = send h (err wrong_count_text) s
vcget_args h s (name ∷ a ∷ b ∷ others) = send h (err wrong_count_text) s

unfoldable pub cmd_vcget : Host → Session → List Arg → Session
unfolding vcget_args
cmd_vcget h s args = guarded (need_auth h.mem s acl_read) (vcget_args h s args)
