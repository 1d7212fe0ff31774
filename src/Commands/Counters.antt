-- ===== src/Commands/Counters.antt =====
-- INCR, DECR, INCRBY and DECRBY of net/commands.c. An `int64_t` is its 64 bits; sums wrap around,
-- as compilers have it where C leaves it open.
pub mod Amount
use void_cache.Prelude.{
  ℕ, ◌+◌, ◌-◌, ◌*◌, ◌^◌, ◌%◌, List, [], ◌∷◌, ◌++◌, Bool, true, false, if◌then◌else◌, ltb, ◌==◌,
  ◌&&◌, bytes_eq, length, take, drop, get_or,
}
use void_cache.Hash.{word64}
use void_cache.Auth.{acl_write}
use void_cache.Cache.{Err, vc_set}
use void_cache.Cache.Get.{vc_get}
use void_cache.Proto.Decimal.{ℤ, pos, negsuc}
use void_cache.Proto.Parse.{Arg, wire_magic}
use void_cache.Proto.Write.{le_bytes, twos}
use void_cache.Commands.Guard.{Session, need_auth, guarded, wrong_count_text, strtoll_value, is_ok}
use void_cache.Commands.Reply.{Host, Reply, err, send}
use void_cache.Commands.Values.{with_cache, is_typed}

-- the number whose bytes are given, the lowest first
unfoldable pub from_le : List ℕ → ℕ
from_le [] = 0
from_le (b ∷ bs) = b + 256 * from_le bs

-- the integer whose 64 bits are given
unfoldable pub signed_word : ℕ → ℤ
signed_word w = if ltb w (2 ^ 63) then pos w else negsuc (2 ^ 64 - 1 - w)

-- the value that INCR starts from: a stored integer, or the number that the text begins with
unfoldable pub current : List ℕ → ℕ
unfolding from_le is_typed twos
current v =
    if (length v == 13 && is_typed v) && (get_or v 4 0 == b'i')
    then from_le (drop 5 v)
    else twos (strtoll_value (take 31 v))

-- the stored form of an integer
unfoldable pub typed_int : ℕ → List ℕ
unfolding le_bytes
typed_int w = wire_magic ++ b'i' ∷ le_bytes 8 w

unfoldable pub incr_from : Host → Session → List ℕ → ℕ → Err × List ℕ → Session
unfolding current typed_int signed_word is_ok
incr_from h s key delta (e, val) =
    let cur = word64 ((if is_ok e then current val else 0) + delta) in
    let s1 = send h (Reply.typed b'i' (le_bytes 8 cur) ∷ []) s in
    let s2 = with_cache s1 (vc_set h.env s1.cache key (typed_int cur) 0).1 in
    send h (Reply.integer (signed_word cur) ∷ []) s2

unfoldable pub incr_key : Host → Session → List ℕ → ℕ → Session
unfolding incr_from
incr_key h s key delta =
    let (answer, c) = vc_get h.env.now s.cache key in incr_from h (with_cache s c) key delta answer

-- An amount in the command takes the place of the one given.
unfoldable pub incr_args : Host → Session → List Arg → ℕ → Session
unfolding incr_key twos
incr_args h s (name ∷ key ∷ []) delta = incr_key h s key.bytes delta
incr_args h s (name ∷ key ∷ amount ∷ []) delta =
    incr_key h s key.bytes (twos (strtoll_value amount.bytes))
incr_args h s [] delta = send h (err wrong_count_text) s
incr_args h s (name ∷ []) delta = send h (err wrong_count_text) s
incr_args h s (name ∷ a ∷ b ∷ c ∷ others) delta = send h (err wrong_count_text) s

unfoldable pub cmd_incrby : Host → Session → List Arg → ℕ → Session
unfolding incr_args
cmd_incrby h s args delta = guarded (need_auth h.mem s acl_write) (incr_args h s args delta)

-- the amount that INCRBY and DECRBY read first
unfoldable pub amount_of : List Arg → ℕ
unfolding twos
amount_of (name ∷ key ∷ amount ∷ []) = twos (strtoll_value amount.bytes)
amount_of [] = 0
amount_of (name ∷ []) = 0
amount_of (name ∷ key ∷ []) = 0
amount_of (name ∷ a ∷ b ∷ c ∷ others) = 0

unfoldable pub cmd_incr : Host → Session → List Arg → Session
cmd_incr h s args = cmd_incrby h s args 1

unfoldable pub cmd_decr : Host → Session → List Arg → Session
cmd_decr h s args = cmd_incrby h s args (2 ^ 64 - 1)

unfoldable pub cmd_incrby2 : Host → Session → List Arg → Session
cmd_incrby2 h s args = cmd_incrby h s args (amount_of args)

unfoldable pub cmd_decrby : Host → Session → List Arg → Session
cmd_decrby h s args = cmd_incrby h s args (word64 (2 ^ 64 - amount_of args))
