-- ===== src/Commands/TypedGet.antt =====
-- A VCSET over the connection, and a VCGET behind it: from `vc_dispatch` of net/commands.c down to the
-- shard of src/voidcache.c.
use void_cache.Prelude.{
  take-length_le, ◌+◌, ℕ, ◌≡◌, ◌≤◌, ◌<◌, ◌^◌, inl, refl, ap, ◌∙◌, List, [], ◌∷◌, none, some, true,
  false, arith, length, codes, if◌then◌else◌,
}
use void_cache.Auth.{acl_read, acl_write}
use void_cache.Hash.{num_shards, shard_idx}
use void_cache.Shard.Lookup.{copies}
use void_cache.Shard.Distinct.{stale}
use void_cache.Shard.Counted.{IsCounted}
use void_cache.Cache.{Err, hash_of, shard_at, vc_set}
use void_cache.Cache.Get.{vc_get}
use void_cache.Cache.RoundTrip.{vc_set-get}
use void_cache.Proto.Parse.{Arg}
use void_cache.Commands.Guard.{Session, reply, need_auth, guarded, is_word, is_ok}
use void_cache.Commands.Table.{cmd_table, counted, checked, run_entry, dispatch_from, vc_dispatch}
use void_cache.Commands.Guard.{Conn, oom_text}
use void_cache.Commands.Reply.{Host, Reply, write, send, err, choose}
use void_cache.Commands.Values.{with_cache}
use void_cache.Commands.Typed.{
  VcType, type_of_name, encoded, payload_of, vcset_store, vcset_as, vcset_args, cmd_vcset,
  typed_value, value_map, vcget_args, cmd_vcget,
}
use void_cache.Proto.{vc_buf_new}
use void_cache.Commands.Encoding.{shown, stored_form, stored_form-le, payload_of-typed_value}
use void_cache.Commands.SetGet.{arg, need_auth_same}

abbrev pub type_word : VcType → List ℕ
type_word VcType.int = codes "int"
type_word VcType.float = codes "float"
type_word VcType.bool = codes "bool"
type_word VcType.json = codes "json"
type_word VcType.binary = codes "binary"
type_word VcType.string = codes "string"

type_of_name-type_word : (t : VcType) → type_of_name (type_word t) ≡ some t
unfolding type_of_name choose is_word
type_of_name-type_word VcType.int = refl
type_of_name-type_word VcType.float = refl
type_of_name-type_word VcType.bool = refl
type_of_name-type_word VcType.json = refl
type_of_name-type_word VcType.binary = refl
type_of_name-type_word VcType.string = refl

-- VCSET key type val
abbrev pub vcset_command : List ℕ → VcType → List ℕ → List Arg
vcset_command key t val = arg (codes "VCSET") ∷ arg key ∷ arg (type_word t) ∷ arg val ∷ []

-- VCGET key
abbrev pub vcget_command : List ℕ → List Arg
vcget_command key = arg (codes "VCGET") ∷ arg key ∷ []

dispatch-vcset :
    (h : Host) (s : Session) (key : List ℕ) (t : VcType) (val : List ℕ)
    → vc_dispatch h s (vcset_command key t val)
      ≡ checked (need_auth h.mem s acl_write) (cmd_vcset h s (vcset_command key t val))
unfolding vc_dispatch dispatch_from cmd_table is_word run_entry
dispatch-vcset h s key t val = refl

dispatch-vcget :
    (h : Host) (s : Session) (key : List ℕ)
    → vc_dispatch h s (vcget_command key)
      ≡ checked (need_auth h.mem s acl_read) (cmd_vcget h s (vcget_command key))
unfolding vc_dispatch dispatch_from cmd_table is_word run_entry
dispatch-vcget h s key = refl

-- what is sent depends on the connection alone
send-conn :
    (h : Host) (rs : List Reply) (s t : Session)
    → s.conn ≡ t.conn
    → (send h rs s).conn ≡ (send h rs t).conn
unfolding send reply
send-conn h [] s t e = e
send-conn h (r ∷ rs) s t e =
    send-conn h rs (reply s (write h s.conn.resp3 r s.conn.wbuf))
      (reply t (write h t.conn.resp3 r t.conn.wbuf))
      (ap {A = Conn} {B = Conn} (λ c. record c { wbuf = (write h c.resp3 r c.wbuf).1 }) e)

vcset_command-store :
    (h : Host) (s : Session) (key : List ℕ) (t : VcType) (val p : List ℕ)
    → h.env.malloc_ok ≡ true
    → payload_of (write h false (encoded h t val) (vc_buf_new (4 + 1 + length val + 16))).1.bytes
      ≡ some p
    → vcset_args h s (vcset_command key t val)
      ≡ send h (Reply.ok ∷ []) (with_cache s (vc_set h.env s.cache key p 0).1)
unfolding vcset_args vcset_as vcset_store
vcset_command-store h s key t val p room payload =
    ap (λ o. vcset_as h s key o val) (type_of_name-type_word t)
    ∙ ap
        (λ b.
          if b
          then vcset_store h s key (
              payload_of
                (write h false (encoded h t val) (vc_buf_new (4 + 1 + length val + 16))).1.bytes)
          else send h (err oom_text) s)
        room
    ∙ ap (vcset_store h s key) payload

vcget_command-value :
    (h : Host) (s : Session) (key p : List ℕ)
    → (vc_get h.env.now s.cache key).0 ≡ (Err.ok, p)
    → vcget_args h s (vcget_command key)
      ≡ send h (value_map (typed_value h p)) (with_cache s (vc_get h.env.now s.cache key).1)
unfolding vcget_args is_ok
vcget_command-value h s key p found =
    ap
      (λ x.
        send h (if is_ok x.0 then value_map (typed_value h x.1) else Reply.null ∷ [])
          (with_cache s (vc_get h.env.now s.cache key).1))
      found

module _ (h : Host) (all : (n : ℕ) → h.mem n ≡ true) (s : Session) (key : List ℕ) (t : VcType)
    (val : List ℕ) (short : length key < 2 ^ 32) (wide : length s.cache.shards ≡ num_shards)
    (v : IsCounted (shard_at s.cache (shard_idx (hash_of key))))
    (few : copies (shard_at s.cache (shard_idx (hash_of key))) key (hash_of key) ≤ 1)
    (fresh : stale h.env.now (shard_at s.cache (shard_idx (hash_of key))) key (hash_of key) ≡ 0)
    (room : (shard_at s.cache (shard_idx (hash_of key))).count
      < (shard_at s.cache (shard_idx (hash_of key))).cap) where
  -- In a cache of 64 shards, VCSET and then VCGET of a key of less than 4 GB over one connection
  -- that may write and read: the replies are OK and the map of the type and the value: the integer
  -- or the double that the text begins with, whether it says true, or all of the bytes; the type
  -- `string` comes back as `binary`. This holds for a value of at most 65,530 bytes, which behind
  -- its header fits into the 65,535 that the cache keeps, if memory does not run out, a double has
  -- 64 bits, `vc_set` stores the value, and the shard satisfies the invariant, is not full and has
  -- at most one entry of the key and no expired one.
  pub vc_dispatch-vcset-vcget :
      length val ≤ 65530
      → h.strtod val < 2 ^ 64
      → h.env.malloc_ok ≡ true
      → need_auth h.mem s acl_write ≡ none
      → need_auth h.mem s acl_read ≡ none
      → (vc_set h.env s.cache key (stored_form h t val) 0).0 ≡ Err.ok
      → (vc_dispatch h (vc_dispatch h s (vcset_command key t val)) (vcget_command key)).conn.wbuf
        ≡ (send h (value_map (shown h t val)) (send h (Reply.ok ∷ []) s)).conn.wbuf
  unfolding counted checked guarded cmd_vcset cmd_vcget send reply
  vc_dispatch-vcset-vcget fits double alloc may_write may_read done =
      let p = stored_form h t val in
      let (written, read) = payload_of-typed_value h all t val (omega (arith, fits)) double in
      let c = (vc_set h.env s.cache key p 0).1 in
      let t' = counted (send h (Reply.ok ∷ []) (with_cache s c)) in
      let passed : checked (need_auth h.mem s acl_write) (cmd_vcset h s (vcset_command key t val))
          ≡ t' =
        rw may_write (ap counted (vcset_command-store h s key t val p alloc written)) in
      let found : (vc_get h.env.now c key).0 ≡ (Err.ok, p) =
        vc_set-get h.env s.cache key p 0 short wide v few fresh room h.env.now done (inl refl)
        ∙ ap (λ w. (Err.ok, w))
            (take-length_le p 65535 (omega (arith, stored_form-le h t val, fits))) in
      let may : need_auth h.mem t' acl_read ≡ none =
        need_auth_same h.mem s t' acl_read refl refl may_read in
      let answered : (checked (need_auth h.mem t' acl_read)
            (cmd_vcget h t' (vcget_command key))).conn.wbuf
          ≡ (send h (value_map (typed_value h p)) t').conn.wbuf =
        rw may (
          ap (λ u. u.conn.wbuf) (vcget_command-value h t' key p found)
          ∙ ap (λ d. d.wbuf)
              (send-conn h (value_map (typed_value h p))
                (with_cache t' (vc_get h.env.now t'.cache key).1) t' refl)) in
      ap (λ u. (vc_dispatch h u (vcget_command key)).conn.wbuf)
        (dispatch-vcset h s key t val ∙ passed)
      ∙ ap (λ u. u.conn.wbuf) (dispatch-vcget h t' key)
      ∙ answered
      ∙ ap (λ x. (send h (value_map x) t').conn.wbuf) read
      ∙ ap (λ d. d.wbuf)
          (send-conn h (value_map (shown h t val)) t' (send h (Reply.ok ∷ []) s) refl)
