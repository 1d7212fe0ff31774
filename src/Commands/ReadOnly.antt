-- ===== src/Commands/ReadOnly.antt =====
-- The commands of net/commands.c that a user may run who can neither write nor administer.
pub mod Table
use void_cache.Prelude.{
  if_both, ℕ, ◌≡◌, refl, ◌∙◌, List, [], ◌∷◌, Option, none, some, Bool, true, false, ◌==◌, ◌⊎◌, inl,
  inr, arith, Bool-cases, if◌then◌else◌, ◌&◌, length,
}
use void_cache.Auth.{User, acl_write, acl_admin, vc_acl_check}
use void_cache.Cache.{Err, Cache, Env}
use void_cache.Cache.Get.{vc_get}
use void_cache.Cache.Contents.{SameContents, vc_get-SameContents}
use void_cache.Proto.Parse.{Arg}
use void_cache.Commands.Guard.{
  Session, reply, reply_error, reply_null, need_auth, refuse, guarded, is_word, oom_text,
  noperm_code, noperm_text,
}
use void_cache.Commands.Reply.{Host, Reply, err, send, send-Untouched}
use void_cache.Commands.Connection.{
  cmd_ping, cmd_hello, cmd_auth, cmd_select, cmd_client, cmd_quit, cmd_reset,
}
use void_cache.Commands.Strings.{
  cmd_get, get_args, reply_value, cmd_exists, exists_args, found_keys, counted_reply, cmd_ttl,
  ttl_args, exists_key, cmd_pttl,
}
use void_cache.Commands.Values.{
  with_cache, cmd_type, type_args, cmd_mget, mget_args, mget_keys, mget_one,
}
use void_cache.Commands.Keys.{
  cmd_dbsize, cmd_keys, keys_args, key_replies, keys_of_shards, max_keys, cmd_scan, scan_args,
  scan_from,
}
use void_cache.Commands.Typed.{cmd_vcget, vcget_args}
use void_cache.Commands.Admin.{cmd_info, cmd_vcinfo, cmd_cluster}
use void_cache.Commands.Compat.{
  cmd_acl, cmd_command, cmd_wait, cmd_object, cmd_xlen, cmd_srandmember,
}
use void_cache.Commands.Table.{
  CmdEntry, cmd_table, counted, checked, run_entry, dispatch_from, vc_dispatch,
}
use void_cache.Commands.Refused.{AuthKeeps, cmd_auth-AuthKeeps}
use void_cache.Commands.Dispatch.{
  with_sub-AuthKeeps, cmd_ping-AuthKeeps, cmd_hello-AuthKeeps, cmd_select-AuthKeeps,
  cmd_client-AuthKeeps, cmd_command-AuthKeeps,
}

-- what a command that does not write leaves alone
abbrev pub Reads : Session → Session → Type 0
Reads s s' = SameContents s.cache s'.cache × (s'.auth ≡ s.auth)

abbrev pub Reads_refl : (s : Session) → Reads s s
Reads_refl s = ((refl, refl, refl), refl)

Reads-trans : (s t u : Session) → Reads s t → Reads t u → Reads s u
Reads-trans s t u ((a, b, c), d) ((a', b', c'), d') = ((a' ∙ a, b' ∙ b, c' ∙ c), d' ∙ d)

-- a session with the same cache and the same users
Reads_of_eq : (s t : Session) → t.cache ≡ s.cache → t.auth ≡ s.auth → Reads s t
Reads_of_eq s t e d = ((rw e refl, rw e refl, rw e refl), d)

pub AuthKeeps-Reads : (s t : Session) → AuthKeeps s t → Reads s t
AuthKeeps-Reads s t (a, b, c) = Reads_of_eq s t a b

pub send-Reads : (h : Host) (rs : List Reply) (s : Session) → Reads s (send h rs s)
send-Reads h rs s = let (a, b, c) = send-Untouched h rs s in Reads_of_eq s (send h rs s) a b

-- a read, and replies to it
get_send-Reads :
    (h : Host) (now : ℕ) (key : List ℕ) (rs : List Reply) (s : Session)
    → Reads s (send h rs (with_cache s (vc_get now s.cache key).1))
get_send-Reads h now key rs s =
    let t = with_cache s (vc_get now s.cache key).1 in
    Reads-trans s t (send h rs t) (vc_get-SameContents now s.cache key, refl) (send-Reads h rs t)

-- a refusal changes the replies alone
pub need_auth-Reads :
    (m : ℕ → Bool) (acl : ℕ) (s t : Session) → need_auth m s acl ≡ some t → Reads s t
unfolding need_auth refuse reply_error reply
need_auth-Reads m acl s t e = elim (Bool-cases s.auth.require_auth) [
  | inl on ↦ by_user s.conn.user (ground arith)
  | inr off ↦ absurd (ground arith)
]
  where
    by_user : (o : Option User) → refuse m s o acl ≡ some t → Reads s t
    by_user none e' = Reads_of_eq s t (cc) (cc)
    by_user (some v) e' = elim (Bool-cases (vc_acl_check (some v) acl)) [
      | inl may ↦ absurd (ground arith)
      | inr may_not ↦ Reads_of_eq s t (ground arith) (ground arith)
    ]

-- a command behind its guard
pub guarded-Reads :
    (m : ℕ → Bool) (acl : ℕ) (s t : Session) → Reads s t → Reads s (guarded (need_auth m s acl) t)
unfolding guarded
guarded-Reads m acl s t r = by_guard (need_auth m s acl) refl
  where
    by_guard : (o : Option Session) → need_auth m s acl ≡ o → Reads s (guarded o t)
    by_guard none e = r
    by_guard (some u) e = need_auth-Reads m acl s u e

-- a read in one handler
get-Reads :
    (s : Session) (now : ℕ) (key : List ℕ) → Reads s (with_cache s (vc_get now s.cache key).1)
get-Reads s now key = (vc_get-SameContents now s.cache key, refl)

reply_value-Reads :
    (m : ℕ → Bool) (s : Session) (e : Err) (val : List ℕ) → Reads s (reply_value m s e val)
unfolding reply_value reply_null reply_error reply
reply_value-Reads m s Err.ok val = Reads_refl s
reply_value-Reads m s Err.oom val = Reads_refl s
reply_value-Reads m s Err.full val = Reads_refl s
reply_value-Reads m s Err.notfnd val = Reads_refl s
reply_value-Reads m s Err.expired val = Reads_refl s
reply_value-Reads m s Err.wal_failed val = Reads_refl s
reply_value-Reads m s Err.inval val = Reads_refl s

pub get_args-Reads :
    (m : ℕ → Bool) (env : Env) (s : Session) (args : List Arg) → Reads s (get_args m env s args)
unfolding get_args reply_error reply
get_args-Reads m env s [] = Reads_refl s
get_args-Reads m env s (name ∷ []) = Reads_refl s
get_args-Reads m env s (name ∷ key ∷ []) =
    let t = with_cache s (vc_get env.now s.cache key.bytes).1 in
    let ((e, val), c) = vc_get env.now s.cache key.bytes in
    Reads-trans s t (reply_value m t e val) (get-Reads s env.now key.bytes)
      (reply_value-Reads m t e val)
get_args-Reads m env s (name ∷ a ∷ b ∷ others) = Reads_refl s

found_keys-SameContents :
    (env : Env) (c : Cache) (keys : List Arg) → SameContents c (found_keys env c keys).1
unfolding found_keys
found_keys-SameContents env c [] = (refl, refl, refl)
found_keys-SameContents env c (a ∷ others) =
    let (x, y, z) = vc_get-SameContents env.now c a.bytes in
    let (x', y', z') = found_keys-SameContents env (vc_get env.now c a.bytes).1 others in
    (x' ∙ x, y' ∙ y, z' ∙ z)

pub exists_args-Reads :
    (m : ℕ → Bool) (env : Env) (s : Session) (args : List Arg) → Reads s (exists_args m env s args)
unfolding exists_args counted_reply reply_error reply
exists_args-Reads m env s [] = Reads_refl s
exists_args-Reads m env s (name ∷ []) = Reads_refl s
exists_args-Reads m env s (name ∷ key ∷ others) =
    (found_keys-SameContents env s.cache (key ∷ others), refl)

pub ttl_args-Reads :
    (m : ℕ → Bool) (env : Env) (s : Session) (args : List Arg) → Reads s (ttl_args m env s args)
unfolding ttl_args exists_key reply_error reply
ttl_args-Reads m env s [] = Reads_refl s
ttl_args-Reads m env s (name ∷ []) = Reads_refl s
ttl_args-Reads m env s (name ∷ key ∷ []) = get-Reads s env.now key.bytes
ttl_args-Reads m env s (name ∷ a ∷ b ∷ others) = Reads_refl s

pub type_args-Reads : (h : Host) (s : Session) (args : List Arg) → Reads s (type_args h s args)
unfolding type_args
type_args-Reads h s [] = send-Reads h _ s
type_args-Reads h s (name ∷ []) = send-Reads h _ s
type_args-Reads h s (name ∷ key ∷ []) = get_send-Reads h h.env.now key.bytes _ s
type_args-Reads h s (name ∷ a ∷ b ∷ others) = send-Reads h _ s

pub vcget_args-Reads : (h : Host) (s : Session) (args : List Arg) → Reads s (vcget_args h s args)
unfolding vcget_args
vcget_args-Reads h s [] = send-Reads h _ s
vcget_args-Reads h s (name ∷ []) = send-Reads h _ s
vcget_args-Reads h s (name ∷ key ∷ []) = get_send-Reads h h.env.now key.bytes _ s
vcget_args-Reads h s (name ∷ a ∷ b ∷ others) = send-Reads h _ s

mget_keys-Reads : (h : Host) (s : Session) (keys : List Arg) → Reads s (mget_keys h s keys)
unfolding mget_keys mget_one
mget_keys-Reads h s [] = Reads_refl s
mget_keys-Reads h s (key ∷ others) =
    let t = mget_one h s key.bytes in
    Reads-trans s t (mget_keys h t others) (get_send-Reads h h.env.now key.bytes _ s)
      (mget_keys-Reads h (mget_one h s key.bytes) others)

pub mget_args-Reads : (h : Host) (s : Session) (args : List Arg) → Reads s (mget_args h s args)
unfolding mget_args
mget_args-Reads h s [] = send-Reads h _ s
mget_args-Reads h s (name ∷ []) = send-Reads h _ s
mget_args-Reads h s (name ∷ key ∷ others) =
    let t = send h (Reply.array (length (key ∷ others)) ∷ []) s in
    Reads-trans s t (mget_keys h t (key ∷ others)) (send-Reads h _ s)
      (mget_keys-Reads h t (key ∷ others))

pub keys_args-Reads : (h : Host) (s : Session) (args : List Arg) → Reads s (keys_args h s args)
unfolding keys_args
keys_args-Reads h s [] = send-Reads h _ s
keys_args-Reads h s (name ∷ []) = send-Reads h _ s
keys_args-Reads h s (name ∷ pattern ∷ []) =
    if_both (Reads s) h.env.malloc_ok _ _
      (send-Reads h (key_replies h (keys_of_shards max_keys s.cache.shards)) s)
      (send-Reads h (err oom_text) s)
keys_args-Reads h s (name ∷ a ∷ b ∷ others) = send-Reads h _ s

pub scan_args-Reads : (h : Host) (s : Session) (args : List Arg) → Reads s (scan_args h s args)
unfolding scan_args scan_from
scan_args-Reads h s [] = send-Reads h _ s
scan_args-Reads h s (name ∷ []) = send-Reads h _ s
scan_args-Reads h s (name ∷ cursor ∷ options) = send-Reads h _ s
