-- ===== src/Commands/Counters/Amount.antt =====
-- The counters of net/commands.c where the command has an amount.
use void_cache.Prelude.{
  ℕ, ◌+◌, ◌^◌, ◌<◌, ◌≡◌, ◌∙◌, refl, sym, subst, ap, arith, List, [], ◌∷◌, none, if◌then◌else◌,
}
use void_cache.Hash.{word64}
use void_cache.Auth.{acl_write}
use void_cache.Cache.{Err, vc_set}
use void_cache.Cache.Get.{vc_get}
use void_cache.Proto.Decimal.{pos}
use void_cache.Proto.Parse.{Arg}
use void_cache.Proto.Write.{le_bytes, twos}
use void_cache.Commands.Guard.{Session, need_auth, guarded, reply, is_ok, strtoll_value}
use void_cache.Commands.Reply.{Host, Reply, send}
use void_cache.Commands.Values.{with_cache}
use void_cache.Commands.Counters.{
  signed_word, current, typed_int, incr_from, incr_key, incr_args, cmd_incrby, cmd_incr, cmd_decr,
  cmd_incrby2, cmd_decrby,
}
use void_cache.Commands.Encoding.{current-typed_int}

-- the end of a counter command whose new value is the word `cur`
abbrev finished : Host → Session → List ℕ → ℕ → Session
finished h s key cur =
    let s1 = send h (Reply.typed b'i' (le_bytes 8 cur) ∷ []) s in
    send h (Reply.integer (signed_word cur) ∷ [])
      (with_cache s1 (vc_set h.env s1.cache key (typed_int cur) 0).1)

-- the cache is as a set of the number `k` under the key leaves it, and the client is sent `k` twice
abbrev pub Counts : Host → Session → List ℕ → ℕ → Session → Type 0
Counts h s key k r =
    (r.cache ≡ (vc_set h.env (vc_get h.env.now s.cache key).1 key (typed_int k) 0).1)
    × (r.conn.wbuf
        ≡ (send h (Reply.typed b'i' (le_bytes 8 k) ∷ Reply.integer (pos k) ∷ []) s).conn.wbuf)

finished-Counts :
    (h : Host) (s : Session) (key : List ℕ) (k : ℕ)
    → signed_word k ≡ pos k
    → Counts h s key k (finished h (with_cache s (vc_get h.env.now s.cache key).1) key k)
unfolding send reply
finished-Counts h s key k positive = (
  refl,
  ap (λ z. (send h (Reply.typed b'i' (le_bytes 8 k) ∷ Reply.integer z ∷ []) s).conn.wbuf) positive,
)

incr_key-Counts :
    (h : Host) (s : Session) (key : List ℕ) (n m : ℕ)
    → (vc_get h.env.now s.cache key).0 ≡ (Err.ok, typed_int n)
    → n + m < 2 ^ 63
    → Counts h s key (n + m) (incr_key h s key m)
unfolding incr_key incr_from is_ok
incr_key-Counts h s key n m stored small =
    let c = (vc_get h.env.now s.cache key).1 in
    let same : word64 (current (typed_int n) + m) ≡ n + m =
      ap (λ k. word64 (k + m)) (current-typed_int n (omega arith))
      ∙ word64_small (n + m) (omega arith) in
    let result : incr_key h s key m ≡ finished h (with_cache s c) key (n + m) =
      ap
        (λ a. finished h (with_cache s c) key (word64 ((if is_ok a.0 then current a.1 else 0) + m)))
        stored
      ∙ ap (finished h (with_cache s c) key) same in
    subst (Counts h s key (n + m)) (sym result)
      (finished-Counts h s key (n + m) (positive (n + m) small))
  where
    word64_small : (k : ℕ) → k < 2 ^ 64 → word64 k ≡ k
    word64_small k less = omega arith

    positive : (k : ℕ) → k < 2 ^ 63 → signed_word k ≡ pos k
    positive k less = ground arith

-- Where `vc_get` reads the integer `n` under a key and the amount reads as `m`, and the sum is below
-- 2 ^ 63, each of INCRBY, DECRBY, INCR and DECR leaves the cache as `vc_set` of the sum `n + m` leaves
-- it, and replies with the sum twice: DECRBY and DECR add the amount as well. The user must have the
-- permission to write.
pub counters_add :
    (h : Host) (s : Session) (name key amount : Arg) (n m : ℕ)
    → need_auth h.mem s acl_write ≡ none
    → (vc_get h.env.now s.cache key.bytes).0 ≡ (Err.ok, typed_int n)
    → strtoll_value amount.bytes ≡ pos m
    → n + m < 2 ^ 63
    → Counts h s key.bytes (n + m) (cmd_incrby2 h s (name ∷ key ∷ amount ∷ []))
      × Counts h s key.bytes (n + m) (cmd_decrby h s (name ∷ key ∷ amount ∷ []))
      × Counts h s key.bytes (n + m) (cmd_incr h s (name ∷ key ∷ amount ∷ []))
      × Counts h s key.bytes (n + m) (cmd_decr h s (name ∷ key ∷ amount ∷ []))
unfolding cmd_decrby cmd_decr cmd_incr cmd_incrby2 cmd_incrby incr_args guarded twos
counters_add h s name key amount n m may stored reads small =
    let counts : Counts h s key.bytes (n + m) (
        guarded (need_auth h.mem s acl_write)
          (incr_key h s key.bytes (twos (strtoll_value amount.bytes)))) =
      rw (may, reads) (incr_key-Counts h s key.bytes n m stored small) in
    (counts, counts, counts, counts)
