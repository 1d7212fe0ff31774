-- ===== src/Commands/Users/Table.antt =====
-- The table of commands of net/commands.c and `vc_dispatch`: what they do to the users.
use void_cache.Prelude.{if_both, ℕ, ◌≡◌, refl, List, [], ◌∷◌, Option, none, some, ◌==◌, inl, ◌&◌}
use void_cache.Cache.Remove.{vc_flush}
use void_cache.Proto.Parse.{Arg}
use void_cache.Commands.Guard.{Session, reply, need_auth, is_word}
use void_cache.Commands.Reply.{Host}
use void_cache.Commands.Connection.{
  cmd_ping, cmd_hello, cmd_auth, cmd_select, cmd_client, cmd_quit, cmd_reset,
}
use void_cache.Commands.Strings.{
  cmd_get, get_args, cmd_exists, exists_args, cmd_ttl, ttl_args, cmd_pttl, cmd_set, set_args,
  cmd_del, del_args, cmd_expire, expire_args, cmd_persist, persist_args,
}
use void_cache.Commands.Values.{
  with_cache, cmd_type, type_args, cmd_mget, mget_args, cmd_mset, mset_args, cmd_append,
  append_args, cmd_rename, rename_args,
}
use void_cache.Commands.Counters.{cmd_incr, cmd_decr, cmd_incrby2, cmd_decrby}
use void_cache.Commands.Keys.{cmd_dbsize, cmd_keys, keys_args, cmd_scan, scan_args}
use void_cache.Commands.Typed.{cmd_vcget, vcget_args, cmd_vcset, vcset_args}
use void_cache.Commands.Admin.{cmd_info, cmd_vcinfo, cmd_cluster, cmd_flushdb, cmd_config}
use void_cache.Commands.Compat.{
  cmd_acl, cmd_command, cmd_wait, cmd_object, cmd_xlen, cmd_srandmember, cmd_debug, cmd_latency,
  cmd_slowlog,
}
use void_cache.Commands.Table.{
  CmdEntry, cmd_table, counted, checked, run_entry, dispatch_from, vc_dispatch,
}
use void_cache.Commands.Refused.{cmd_auth-AuthKeeps}
use void_cache.Commands.Dispatch.{
  with_sub-AuthKeeps, cmd_ping-AuthKeeps, cmd_hello-AuthKeeps, cmd_select-AuthKeeps,
  cmd_client-AuthKeeps, cmd_command-AuthKeeps,
}
use void_cache.Commands.Users.{
  Verifies, AuthKeeps-Verifies, Stays-Verifies, send-Stays, send-Verifies, need_auth-Stays,
  guarded-Verifies, shields,
}
use void_cache.Commands.Users.Strings.{
  get_args-Stays, exists_args-Stays, ttl_args-Stays, set_args-Stays, del_args-Stays,
  expire_args-Stays, persist_args-Stays,
}
use void_cache.Commands.Users.Values.{
  mget_args-Stays, type_args-Stays, keys_args-Stays, scan_args-Stays, mset_args-Stays,
  rename_args-Stays, append_args-Stays, cmd_incrby-Verifies, cmd_config-Stays, vcset_args-Stays,
  vcget_args-Stays,
}

abbrev AllVerify : List CmdEntry → Type 0
AllVerify [] = Unit {0}
AllVerify (e ∷ es) =
    ((h : Host) (s : Session) (args : List Arg) → Verifies s (e.fn h s args)) × AllVerify es

cmd_table-AllVerify : AllVerify cmd_table
unfolding cmd_table cmd_quit cmd_reset reply cmd_wait cmd_acl cmd_cluster cmd_get cmd_mget
    cmd_exists cmd_ttl cmd_pttl cmd_type cmd_dbsize cmd_keys cmd_scan cmd_info cmd_set cmd_mset
    cmd_del cmd_expire cmd_persist cmd_rename cmd_append cmd_incr cmd_decr cmd_incrby2 cmd_decrby
    cmd_flushdb cmd_debug cmd_vcset cmd_vcget cmd_vcinfo cmd_latency cmd_slowlog cmd_object cmd_xlen
    cmd_srandmember
cmd_table-AllVerify =
    (λ h s args. AuthKeeps-Verifies s (cmd_ping h.mem s args) (cmd_ping-AuthKeeps h.mem s args))
    & (λ h s args. AuthKeeps-Verifies s (cmd_hello h s args) (cmd_hello-AuthKeeps h s args))
    & (λ h s args. AuthKeeps-Verifies s (cmd_auth h.mem s args) (cmd_auth-AuthKeeps h.mem s args))
    & (λ h s args.
        AuthKeeps-Verifies s (cmd_select h.mem s args) (cmd_select-AuthKeeps h.mem s args))
    & (λ h s args. (refl, inl refl))
    & (λ h s args. AuthKeeps-Verifies s (cmd_client h s args) (cmd_client-AuthKeeps h s args))
    & (shields (λ h. get_args h.mem h.env) _ (λ h. get_args-Stays h.mem h.env))
    & (shields mget_args _ mget_args-Stays)
    & (shields (λ h. exists_args h.mem h.env) _ (λ h. exists_args-Stays h.mem h.env))
    & (shields (λ h. ttl_args h.mem h.env) _ (λ h. ttl_args-Stays h.mem h.env))
    & (shields (λ h. ttl_args h.mem h.env) _ (λ h. ttl_args-Stays h.mem h.env))
    & (shields type_args _ type_args-Stays)
    & (λ h s args. guarded-Verifies h.mem _ s _ (send-Stays h s s _ (refl, refl)))
    & (shields keys_args _ keys_args-Stays)
    & (shields scan_args _ scan_args-Stays)
    & (λ h s args. guarded-Verifies h.mem _ s _ (send-Stays h s s _ (refl, refl)))
    & (shields (λ h. set_args h.mem h.env) _ (λ h. set_args-Stays h.mem h.env))
    & (shields mset_args _ mset_args-Stays)
    & (shields (λ h. del_args h.mem h.env) _ (λ h. del_args-Stays h.mem h.env))
    & (shields (λ h. expire_args h.mem h.env) _ (λ h. expire_args-Stays h.mem h.env))
    & (shields (λ h. persist_args h.mem h.env) _ (λ h. persist_args-Stays h.mem h.env))
    & (shields rename_args _ rename_args-Stays)
    & (shields append_args _ append_args-Stays)
    & (λ h s args. cmd_incrby-Verifies h s args _)
    & (λ h s args. cmd_incrby-Verifies h s args _)
    & (λ h s args. cmd_incrby-Verifies h s args _)
    & (λ h s args. cmd_incrby-Verifies h s args _)
    & (λ h s args.
        guarded-Verifies h.mem _ s _
          (send-Stays h s (with_cache s (vc_flush s.cache)) _ (refl, refl)))
    & (λ h s args.
        guarded-Verifies h.mem _ s _
          (send-Stays h s (with_cache s (vc_flush s.cache)) _ (refl, refl)))
    & (λ h s args. Stays-Verifies s (cmd_config h s args) (cmd_config-Stays h s args))
    & (λ h s args. guarded-Verifies h.mem _ s _ (send-Stays h s s _ (refl, refl)))
    & (λ h s args. AuthKeeps-Verifies s (cmd_command h s args) (cmd_command-AuthKeeps h s args))
    & (λ h s args. AuthKeeps-Verifies s (cmd_cluster h s args) (with_sub-AuthKeeps h s args _))
    & (shields vcset_args _ vcset_args-Stays)
    & (shields vcget_args _ vcget_args-Stays)
    & (λ h s args. guarded-Verifies h.mem _ s _ (send-Stays h s s _ (refl, refl)))
    & (λ h s args. (refl, inl refl))
    & (λ h s args. AuthKeeps-Verifies s (cmd_acl h s args) (with_sub-AuthKeeps h s args _))
    & (λ h s args. AuthKeeps-Verifies s (cmd_latency h s args) (with_sub-AuthKeeps h s args _))
    & (λ h s args. AuthKeeps-Verifies s (cmd_slowlog h s args) (with_sub-AuthKeeps h s args _))
    & (λ h s args. AuthKeeps-Verifies s (cmd_object h s args) (with_sub-AuthKeeps h s args _))
    & (λ h s args. send-Verifies h s _)
    & (λ h s args. send-Verifies h s _)
    & (λ h s args. send-Verifies h s _)
    & tt

-- a handler that has run, counted
counted-Verifies : (s t : Session) → Verifies s t → Verifies s (counted t)
unfolding counted
counted-Verifies s t v = v

checked-Verifies :
    (h : Host) (acl : ℕ) (s t : Session)
    → Verifies s t
    → Verifies s (checked (need_auth h.mem s acl) t)
unfolding checked
checked-Verifies h acl s t v = by_guard (need_auth h.mem s acl) refl
  where
    by_guard : (o : Option Session) → need_auth h.mem s acl ≡ o → Verifies s (checked o t)
    by_guard none e = counted-Verifies s t v
    by_guard (some u) e = Stays-Verifies s u (need_auth-Stays h.mem acl s u e)

dispatch_from-Verifies :
    (h : Host) (es : List CmdEntry) (name : List ℕ) (s : Session) (args : List Arg)
    → AllVerify es
    → Verifies s (dispatch_from h es name s args)
unfolding dispatch_from run_entry
dispatch_from-Verifies h [] name s args all = send-Verifies h s _
dispatch_from-Verifies h (e ∷ es) name s args (v, all) =
    if_both (Verifies s) (is_word name e.name) _ _
      (if_both (Verifies s) (e.acl_needed == 0) _ _
        (counted-Verifies s (e.fn h s args) (v h s args))
        (checked-Verifies h e.acl_needed s (e.fn h s args) (v h s args)))
      (dispatch_from-Verifies h es name s args all)

-- Whatever the command, the table of users does not change, and the connection keeps its user or
-- gets one that `vc_auth_verify` returned for some name and password.
pub vc_dispatch-Verifies :
    (h : Host) (s : Session) (args : List Arg) → Verifies s (vc_dispatch h s args)
unfolding vc_dispatch
vc_dispatch-Verifies h s [] = (refl, inl refl)
vc_dispatch-Verifies h s (name ∷ args) =
    dispatch_from-Verifies h cmd_table name.bytes s (name ∷ args) cmd_table-AllVerify
