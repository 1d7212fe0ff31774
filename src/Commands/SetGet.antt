-- ===== src/Commands/SetGet.antt =====
-- A SET over the connection, and a GET behind it: from `vc_dispatch` of net/commands.c down to the
-- shard of src/voidcache.c.
use void_cache.Prelude.{
  ℕ, ◌≡◌, ◌≤◌, ◌<◌, ◌^◌, inl, inr, refl, ap, ◌∙◌, List, [], ◌∷◌, Option, none, some, Bool, true,
  false, arith, Bool-cases, length, take, codes, if◌then◌else◌, lt→ltb,
}
use void_cache.Auth.{User, acl_read, acl_write, vc_acl_check}
use void_cache.Hash.{num_shards, shard_idx}
use void_cache.Shard.Lookup.{copies}
use void_cache.Shard.Distinct.{stale}
use void_cache.Shard.Counted.{IsCounted}
use void_cache.Cache.{Err, Cache, hash_of, shard_at, vc_set}
use void_cache.Cache.Get.{vc_get}
use void_cache.Cache.RoundTrip.{vc_set-get}
use void_cache.Proto.Parse.{Arg}
use void_cache.Proto.Write.{resp_write_ok, resp_write_bulk}
use void_cache.Commands.Guard.{Session, reply, need_auth, refuse, guarded, is_word, is_ok}
use void_cache.Commands.Reply.{Host}
use void_cache.Commands.Strings.{
  cmd_set, set_args, set_checked, set_if_exists, set_options, store_value, cmd_get, get_args,
  reply_value,
}
use void_cache.Commands.Table.{cmd_table, counted, checked, run_entry, dispatch_from, vc_dispatch}

abbrev pub arg : List ℕ → Arg
arg s = record { bytes = s; argl = length s }

-- SET key val
abbrev pub set_command : List ℕ → List ℕ → List Arg
set_command key val = arg (codes "SET") ∷ arg key ∷ arg val ∷ []

-- GET key
abbrev pub get_command : List ℕ → List Arg
get_command key = arg (codes "GET") ∷ arg key ∷ []

-- the dispatch of the two commands reaches their handlers
dispatch-set :
    (h : Host) (s : Session) (key val : List ℕ)
    → vc_dispatch h s (set_command key val)
      ≡ checked (need_auth h.mem s acl_write) (cmd_set h.mem h.env s (set_command key val))
unfolding vc_dispatch dispatch_from cmd_table is_word run_entry
dispatch-set h s key val = refl

dispatch-get :
    (h : Host) (s : Session) (key : List ℕ)
    → vc_dispatch h s (get_command key)
      ≡ checked (need_auth h.mem s acl_read) (cmd_get h.mem h.env s (get_command key))
unfolding vc_dispatch dispatch_from cmd_table is_word run_entry
dispatch-get h s key = refl

-- SET without options, of a value that is not empty
set_command-store :
    (h : Host) (s : Session) (key val : List ℕ) (c : Cache)
    → 0 < length val
    → vc_set h.env s.cache key val 0 ≡ (Err.ok, c)
    → set_args h.mem h.env s (set_command key val)
      ≡ (let s' = record s { cache = c } in reply s' (resp_write_ok h.mem s'.conn.wbuf))
unfolding set_args set_checked set_if_exists set_options store_value is_ok
set_command-store h s key val c some_bytes done = rw (lt→ltb 0 (length val) some_bytes, done) refl

get_command-value :
    (h : Host) (s : Session) (key val : List ℕ)
    → (vc_get h.env.now s.cache key).0 ≡ (Err.ok, val)
    → get_args h.mem h.env s (get_command key) ≡ (
        let s' = record s { cache = (vc_get h.env.now s.cache key).1 } in
        reply s' (resp_write_bulk h.mem val s'.conn.wbuf))
unfolding get_args reply_value
get_command-value h s key val found =
    ap (λ x. reply_value h.mem (record s { cache = (vc_get h.env.now s.cache key).1 }) x.0 x.1)
      found

-- a guard that lets pass looks at the users alone
pub need_auth_same :
    (m : ℕ → Bool) (s t : Session) (acl : ℕ)
    → t.auth ≡ s.auth
    → t.conn.user ≡ s.conn.user
    → need_auth m s acl ≡ none
    → need_auth m t acl ≡ none
unfolding need_auth refuse
need_auth_same m s t acl a u e =
    ap (λ d. if d.require_auth then refuse m t t.conn.user acl else none) a
    ∙ ap (λ o. if s.auth.require_auth then refuse m t o acl else none) u
    ∙ by_mode s.auth.require_auth s.conn.user e
  where
    by_user : (o : Option User) → refuse m s o acl ≡ none → refuse m t o acl ≡ none
    by_user none q = absurd (ground arith)
    by_user (some v) q = elim (Bool-cases (vc_acl_check (some v) acl)) [
      | inl may ↦ rw may refl
      | inr may_not ↦ absurd (ground arith)
    ]

    by_mode :
        (b : Bool) (o : Option User)
        → (if b then refuse m s o acl else none) ≡ none
        → (if b then refuse m t o acl else none) ≡ none
    by_mode true o q = by_user o q
    by_mode false o q = refl

module _ (h : Host) (s : Session) (key val : List ℕ) (short : length key < 2 ^ 32)
    (some_bytes : 0 < length val) (wide : length s.cache.shards ≡ num_shards)
    (v : IsCounted (shard_at s.cache (shard_idx (hash_of key))))
    (few : copies (shard_at s.cache (shard_idx (hash_of key))) key (hash_of key) ≤ 1)
    (fresh : stale h.env.now (shard_at s.cache (shard_idx (hash_of key))) key (hash_of key) ≡ 0)
    (room : (shard_at s.cache (shard_idx (hash_of key))).count
      < (shard_at s.cache (shard_idx (hash_of key))).cap) where
  -- In a cache of 64 shards, SET and then GET of a key of less than 4 GB over one connection that
  -- may write and read: if the SET is stored, the replies are OK and the first 65,535 bytes of the
  -- value. This holds for a value that is not empty, in a shard that satisfies the invariant and is
  -- not full and where the key has at most one entry and that has not expired.
  pub vc_dispatch-set-get :
      need_auth h.mem s acl_write ≡ none
      → need_auth h.mem s acl_read ≡ none
      → (vc_set h.env s.cache key val 0).0 ≡ Err.ok
      → (vc_dispatch h (vc_dispatch h s (set_command key val)) (get_command key)).conn.wbuf
        ≡ (resp_write_bulk h.mem (take 65535 val) (resp_write_ok h.mem s.conn.wbuf).1).1
  unfolding counted checked reply guarded cmd_set cmd_get
  vc_dispatch-set-get may_write may_read done =
      let c = (vc_set h.env s.cache key val 0).1 in
      let t =
        counted (let s' = record s { cache = c } in reply s' (resp_write_ok h.mem s.conn.wbuf)) in
      let stored = set_command-store h s key val c some_bytes (ap (λ e. (e, c)) done) in
      let passed : checked (need_auth h.mem s acl_write)
            (cmd_set h.mem h.env s (set_command key val))
          ≡ t =
        rw may_write (ap counted stored) in
      let set_ok = dispatch-set h s key val ∙ passed in
      let found : (vc_get h.env.now c key).0 ≡ (Err.ok, take 65535 val) =
        vc_set-get h.env s.cache key val 0 short wide v few fresh room h.env.now done (inl refl) in
      let may : need_auth h.mem t acl_read ≡ none =
        need_auth_same h.mem s t acl_read refl refl may_read in
      let answered : (checked (need_auth h.mem t acl_read)
            (cmd_get h.mem h.env t (get_command key))).conn.wbuf
          ≡ (resp_write_bulk h.mem (take 65535 val) t.conn.wbuf).1 =
        rw may (ap (λ u. u.conn.wbuf) (get_command-value h t key (take 65535 val) found)) in
      ap (λ u. (vc_dispatch h u (get_command key)).conn.wbuf) set_ok
      ∙ ap (λ u. u.conn.wbuf) (dispatch-get h t key)
      ∙ answered
