-- ===== src/Commands/Users.antt =====
-- No command of net/commands.c changes the table of users, and none but AUTH and HELLO the user of the
-- connection; these take one that `vc_auth_verify` returns.
pub mod Strings
pub mod Table
pub mod Values
use void_cache.Prelude.{
  ℕ, ◌+◌, ◌≡◌, refl, ◌∙◌, List, [], ◌∷◌, ◌++◌, Option, none, some, Bool, true, false, ◌==◌, ◌⊎◌,
  inl, inr, arith, length, Bool-cases, if◌then◌else◌, ◌&◌,
}
use void_cache.Auth.{User, vc_acl_check, vc_auth_verify}
use void_cache.Cache.{Err, Env}
use void_cache.Cache.Get.{vc_get}
use void_cache.Cache.Remove.{vc_flush}
use void_cache.Proto.Parse.{Arg}
use void_cache.Commands.Guard.{
  Session, reply, reply_error, reply_null, need_auth, refuse, guarded, is_word, oom_text,
  noauth_code, noauth_text, noperm_code, noperm_text,
}
use void_cache.Commands.Reply.{Host, Reply, err, send, send-Untouched}
use void_cache.Commands.Connection.{
  cmd_ping, cmd_hello, cmd_auth, cmd_select, cmd_client, cmd_quit, cmd_reset,
}
use void_cache.Commands.Strings.{
  cmd_get, get_args, reply_value, cmd_exists, exists_args, counted_reply, cmd_ttl, ttl_args,
  exists_key, cmd_pttl, cmd_set, set_args, set_checked, set_if_exists, store_value, SetOptions,
  set_options, cmd_del, del_args, cmd_expire, expire_args, set_again, cmd_persist, persist_args,
}
use void_cache.Commands.Values.{
  with_cache, cmd_type, type_args, cmd_mget, mget_args, mget_keys, mget_one, cmd_mset, mset_args,
  mset_end, pairs_of, cmd_append, append_args, append_to, cmd_rename, rename_args, rename_to,
}
use void_cache.Commands.Counters.{
  cmd_incrby, incr_args, incr_key, incr_from, cmd_incr, cmd_decr, cmd_incrby2, cmd_decrby,
}
use void_cache.Commands.Keys.{cmd_dbsize, cmd_keys, keys_args, cmd_scan, scan_args, scan_from}
use void_cache.Commands.Typed.{
  cmd_vcget, vcget_args, cmd_vcset, vcset_args, vcset_as, vcset_store, VcType,
}
use void_cache.Commands.Admin.{cmd_info, cmd_vcinfo, cmd_cluster, cmd_flushdb, cmd_config}
use void_cache.Commands.Compat.{
  cmd_acl, cmd_command, cmd_wait, cmd_object, cmd_xlen, cmd_srandmember, cmd_debug, cmd_latency,
  cmd_slowlog,
}
use void_cache.Commands.Table.{
  CmdEntry, cmd_table, counted, checked, run_entry, dispatch_from, vc_dispatch,
}
use void_cache.Commands.Refused.{AuthKeeps, cmd_auth-AuthKeeps}
use void_cache.Commands.Dispatch.{
  with_sub-AuthKeeps, cmd_ping-AuthKeeps, cmd_hello-AuthKeeps, cmd_select-AuthKeeps,
  cmd_client-AuthKeeps, cmd_command-AuthKeeps,
}

-- the same users, and the same user
abbrev pub Stays : Session → Session → Type 0
Stays s s' = (s'.auth ≡ s.auth) × (s'.conn.user ≡ s.conn.user)

-- the same users, and the same user or one whose name and password were given
abbrev pub Verifies : Session → Session → Type 0
Verifies s s' =
    (s'.auth ≡ s.auth)
    × ((s'.conn.user ≡ s.conn.user)
        ⊎ ((u : User) × (uname : List ℕ) × (upass : List ℕ) × (s'.conn.user ≡ some u)
            × (vc_auth_verify s.auth uname upass ≡ some u)))

pub AuthKeeps-Verifies : (s s' : Session) → AuthKeeps s s' → Verifies s s'
AuthKeeps-Verifies s s' (a, b, c) = (b, c)

pub Stays-Verifies : (s s' : Session) → Stays s s' → Verifies s s'
Stays-Verifies s s' (a, b) = (a, inl b)

pub send-Stays : (h : Host) (s t : Session) (rs : List Reply) → Stays s t → Stays s (send h rs t)
send-Stays h s t rs (a, b) = let (x, y, z) = send-Untouched h rs t in (y ∙ a, z ∙ b)

pub send-Verifies : (h : Host) (s : Session) (rs : List Reply) → Verifies s (send h rs s)
send-Verifies h s rs = Stays-Verifies s (send h rs s) (send-Stays h s s rs (refl, refl))

-- a refusal changes the replies alone
pub need_auth-Stays :
    (m : ℕ → Bool) (acl : ℕ) (s t : Session) → need_auth m s acl ≡ some t → Stays s t
unfolding need_auth refuse reply_error reply
need_auth-Stays m acl s t e = elim (Bool-cases s.auth.require_auth) [
  | inl on ↦ by_user s.conn.user (ground arith)
  | inr off ↦ absurd (ground arith)
]
  where
    by_user : (o : Option User) → refuse m s o acl ≡ some t → Stays s t
    by_user none e' = ((cc), (cc))
    by_user (some v) e' = elim (Bool-cases (vc_acl_check (some v) acl)) [
      | inl may ↦ absurd (ground arith)
      | inr may_not ↦ (ground arith, ground arith)
    ]

pub guarded-Stays :
    (m : ℕ → Bool) (acl : ℕ) (s t : Session) → Stays s t → Stays s (guarded (need_auth m s acl) t)
unfolding guarded
guarded-Stays m acl s t r = by_guard (need_auth m s acl) refl
  where
    by_guard : (o : Option Session) → need_auth m s acl ≡ o → Stays s (guarded o t)
    by_guard none e = r
    by_guard (some u) e = need_auth-Stays m acl s u e

pub guarded-Verifies :
    (m : ℕ → Bool) (acl : ℕ) (s t : Session)
    → Stays s t
    → Verifies s (guarded (need_auth m s acl) t)
guarded-Verifies m acl s t r =
    Stays-Verifies s (guarded (need_auth m s acl) t) (guarded-Stays m acl s t r)

pub shields :
    (f : Host → Session → List Arg → Session) (acl : ℕ)
    → ((h : Host) (s : Session) (args : List Arg) → Stays s (f h s args))
    → (h : Host) (s : Session) (args : List Arg)
    → Verifies s (guarded (need_auth h.mem s acl) (f h s args))
shields f acl r h s args = guarded-Verifies h.mem acl s (f h s args) (r h s args)
