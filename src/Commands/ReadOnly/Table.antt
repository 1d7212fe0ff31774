-- ===== src/Commands/ReadOnly/Table.antt =====
-- The table of commands of net/commands.c and `vc_dispatch`, for a user who can neither write nor
-- administer.
use void_cache.Prelude.{
  if_both, ℕ, ◌≡◌, refl, List, [], ◌∷◌, Option, none, some, Bool, true, false, ◌==◌, ◌⊎◌, inl, inr,
  Bool-cases, ◌&◌,
}
use void_cache.Auth.{User, acl_write, acl_admin, vc_acl_check}
use void_cache.Proto.Parse.{Arg}
use void_cache.Commands.Guard.{
  Session, reply, reply_error, need_auth, refuse, guarded, is_word, noperm_code, noperm_text,
}
use void_cache.Commands.Reply.{Host}
use void_cache.Commands.Connection.{
  cmd_ping, cmd_hello, cmd_auth, cmd_select, cmd_client, cmd_quit, cmd_reset,
}
use void_cache.Commands.Strings.{
  cmd_get, get_args, cmd_exists, exists_args, cmd_ttl, ttl_args, cmd_pttl,
}
use void_cache.Commands.Values.{cmd_type, type_args, cmd_mget, mget_args}
use void_cache.Commands.Keys.{cmd_dbsize, cmd_keys, keys_args, cmd_scan, scan_args}
use void_cache.Commands.Typed.{cmd_vcget, vcget_args}
use void_cache.Commands.Admin.{cmd_info, cmd_vcinfo, cmd_cluster}
use void_cache.Commands.Compat.{
  cmd_acl, cmd_command, cmd_wait, cmd_object, cmd_xlen, cmd_srandmember,
}
use void_cache.Commands.Table.{
  CmdEntry, cmd_table, counted, checked, run_entry, dispatch_from, vc_dispatch,
}
use void_cache.Commands.Refused.{AuthKeeps, cmd_auth-AuthKeeps}
use void_cache.Commands.Dispatch.{
  with_sub-AuthKeeps, cmd_ping-AuthKeeps, cmd_hello-AuthKeeps, cmd_select-AuthKeeps,
  cmd_client-AuthKeeps, cmd_command-AuthKeeps,
}
use void_cache.Commands.ReadOnly.{
  Reads, Reads_refl, AuthKeeps-Reads, send-Reads, need_auth-Reads, guarded-Reads, get_args-Reads,
  exists_args-Reads, ttl_args-Reads, type_args-Reads, vcget_args-Reads, mget_args-Reads,
  keys_args-Reads, scan_args-Reads,
}

-- An entry needs the right to write or to administer, or leaves the contents of the cache alone.
abbrev IsHarmless : CmdEntry → Type 0
IsHarmless e =
    ((e.acl_needed ≡ acl_write) ⊎ (e.acl_needed ≡ acl_admin))
    ⊎ ((h : Host) (s : Session) (args : List Arg) → Reads s (e.fn h s args))

abbrev AllHarmless : List CmdEntry → Type 0
AllHarmless [] = Unit {0}
AllHarmless (e ∷ es) = IsHarmless e × AllHarmless es

-- behind a guard
behind :
    (f : Host → Session → List Arg → Session) (acl : ℕ)
    → ((h : Host) (s : Session) (args : List Arg) → Reads s (f h s args))
    → (h : Host) (s : Session) (args : List Arg)
    → Reads s (guarded (need_auth h.mem s acl) (f h s args))
behind f acl r h s args = guarded-Reads h.mem acl s (f h s args) (r h s args)

-- what keeps more
opened :
    (f : Host → Session → List Arg → Session)
    → ((h : Host) (s : Session) (args : List Arg) → AuthKeeps s (f h s args))
    → (h : Host) (s : Session) (args : List Arg) → Reads s (f h s args)
opened f k h s args = AuthKeeps-Reads s (f h s args) (k h s args)

cmd_table-AllHarmless : AllHarmless cmd_table
unfolding cmd_table cmd_quit cmd_reset reply cmd_wait cmd_acl cmd_cluster cmd_get cmd_exists cmd_ttl
    cmd_pttl cmd_type cmd_mget cmd_keys cmd_scan cmd_vcget cmd_dbsize cmd_info cmd_vcinfo cmd_object
    cmd_xlen cmd_srandmember
cmd_table-AllHarmless =
    (inr (opened (λ h. cmd_ping h.mem) (λ h. cmd_ping-AuthKeeps h.mem)))
    & (inr (opened cmd_hello cmd_hello-AuthKeeps))
    & (inr (opened (λ h. cmd_auth h.mem) (λ h. cmd_auth-AuthKeeps h.mem)))
    & (inr (opened (λ h. cmd_select h.mem) (λ h. cmd_select-AuthKeeps h.mem)))
    & (inr (λ h s args. Reads_refl s))
    & (inr (opened cmd_client cmd_client-AuthKeeps))
    & (inr (behind (λ h. get_args h.mem h.env) 1 (λ h. get_args-Reads h.mem h.env)))
    & (inr (behind mget_args 1 mget_args-Reads))
    & (inr (behind (λ h. exists_args h.mem h.env) 1 (λ h. exists_args-Reads h.mem h.env)))
    & (inr (behind (λ h. ttl_args h.mem h.env) 1 (λ h. ttl_args-Reads h.mem h.env)))
    & (inr (behind (λ h. ttl_args h.mem h.env) 1 (λ h. ttl_args-Reads h.mem h.env)))
    & (inr (behind type_args 1 type_args-Reads))
    & (inr (λ h s args. guarded-Reads h.mem 1 s _ (send-Reads h _ s)))
    & (inr (behind keys_args 1 keys_args-Reads))
    & (inr (behind scan_args 1 scan_args-Reads))
    & (inr (λ h s args. guarded-Reads h.mem 1 s _ (send-Reads h _ s)))
    & (inl (inl refl))
    & (inl (inl refl))
    & (inl (inl refl))
    & (inl (inl refl))
    & (inl (inl refl))
    & (inl (inl refl))
    & (inl (inl refl))
    & (inl (inl refl))
    & (inl (inl refl))
    & (inl (inl refl))
    & (inl (inl refl))
    & (inl (inr refl))
    & (inl (inr refl))
    & (inl (inr refl))
    & (inl (inr refl))
    & (inr (opened cmd_command cmd_command-AuthKeeps))
    & (inr (opened cmd_cluster (λ h s args. with_sub-AuthKeeps h s args _)))
    & (inl (inl refl))
    & (inr (behind vcget_args 1 vcget_args-Reads))
    & (inr (λ h s args. guarded-Reads h.mem 1 s _ (send-Reads h _ s)))
    & (inr (λ h s args. Reads_refl s))
    & (inr (opened cmd_acl (λ h s args. with_sub-AuthKeeps h s args _)))
    & (inl (inr refl))
    & (inl (inr refl))
    & (inr (opened cmd_object (λ h s args. with_sub-AuthKeeps h s args _)))
    & (inr (λ h s args. send-Reads h _ s))
    & (inr (λ h s args. send-Reads h _ s))
    & (inr (λ h s args. send-Reads h _ s))
    & tt

checked-Reads :
    (m : ℕ → Bool) (acl : ℕ) (s t : Session) → Reads s t → Reads s (checked (need_auth m s acl) t)
unfolding checked counted
checked-Reads m acl s t r = by_guard (need_auth m s acl) refl
  where
    by_guard : (o : Option Session) → need_auth m s acl ≡ o → Reads s (checked o t)
    by_guard none e = r
    by_guard (some u) e = need_auth-Reads m acl s u e

-- the guard refuses a user without the permission
need_auth_noperm :
    (m : ℕ → Bool) (s : Session) (acl : ℕ) (u : User)
    → s.auth.require_auth ≡ true
    → s.conn.user ≡ some u
    → vc_acl_check (some u) acl ≡ false
    → need_auth m s acl ≡ some (reply_error m noperm_code noperm_text s)
unfolding need_auth refuse
need_auth_noperm m s acl u required who no_right = rw (required, who, no_right) refl

run_entry-Reads :
    (h : Host) (e : CmdEntry) (s : Session) (args : List Arg) (u : User)
    → s.auth.require_auth ≡ true
    → s.conn.user ≡ some u
    → vc_acl_check (some u) acl_write ≡ false
    → vc_acl_check (some u) acl_admin ≡ false
    → IsHarmless e
    → Reads s (run_entry h e s args)
unfolding run_entry checked counted
run_entry-Reads h e s args u required who no_write no_admin (inl (inl w)) =
    let refused = need_auth_noperm h.mem s acl_write u required who no_write in
    rw (w, refused) (need_auth-Reads h.mem acl_write s _ refused)
run_entry-Reads h e s args u required who no_write no_admin (inl (inr a)) =
    let refused = need_auth_noperm h.mem s acl_admin u required who no_admin in
    rw (a, refused) (need_auth-Reads h.mem acl_admin s _ refused)
run_entry-Reads h e s args u required who no_write no_admin (inr reads) =
    if_both (Reads s) (e.acl_needed == 0) _ _ (reads h s args)
      (checked-Reads h.mem e.acl_needed s (e.fn h s args) (reads h s args))

dispatch_from-Reads :
    (h : Host) (es : List CmdEntry) (name : List ℕ) (s : Session) (args : List Arg) (u : User)
    → s.auth.require_auth ≡ true
    → s.conn.user ≡ some u
    → vc_acl_check (some u) acl_write ≡ false
    → vc_acl_check (some u) acl_admin ≡ false
    → AllHarmless es
    → Reads s (dispatch_from h es name s args)
unfolding dispatch_from
dispatch_from-Reads h [] name s args u required who no_write no_admin all = send-Reads h _ s
dispatch_from-Reads h (e ∷ es) name s args u required who no_write no_admin (g, all) =
    elim (Bool-cases (is_word name e.name)) [
      | inl this ↦ rw this (run_entry-Reads h e s args u required who no_write no_admin g)
      | inr other ↦
          rw other (dispatch_from-Reads h es name s args u required who no_write no_admin all)
    ]

-- Where passwords are required, no command of a user who has neither the permission to write nor
-- that to administer changes the contents of the cache (the keys, values, deadlines and places of
-- the entries, the slab, the log) or the table of users.
pub vc_dispatch-Reads :
    (h : Host) (s : Session) (args : List Arg) (u : User)
    → s.auth.require_auth ≡ true
    → s.conn.user ≡ some u
    → vc_acl_check (some u) acl_write ≡ false
    → vc_acl_check (some u) acl_admin ≡ false
    → Reads s (vc_dispatch h s args)
unfolding vc_dispatch
vc_dispatch-Reads h s [] u required who no_write no_admin = Reads_refl s
vc_dispatch-Reads h s (name ∷ args) u required who no_write no_admin =
    dispatch_from-Reads h cmd_table name.bytes s (name ∷ args) u required who no_write no_admin
      cmd_table-AllHarmless
