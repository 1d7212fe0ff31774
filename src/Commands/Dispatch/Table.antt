-- ===== src/Commands/Dispatch/Table.antt =====
-- The table of commands of net/commands.c and `vc_dispatch`, on a connection that has not logged in.
use void_cache.Prelude.{
  ℕ, ◌≡◌, refl, List, [], ◌∷◌, none, true, false, ◌==◌, ◌⊎◌, inl, inr, Bool-cases, ◌&◌,
}
use void_cache.Proto.Parse.{Arg}
use void_cache.Commands.Guard.{Session, reply, reply_error, need_auth, refuse, is_word}
use void_cache.Commands.Connection.{cmd_quit, cmd_reset}
use void_cache.Commands.Compat.{cmd_acl, cmd_wait}
use void_cache.Commands.Admin.{cmd_cluster}
use void_cache.Commands.Reply.{Host}
use void_cache.Commands.Table.{
  CmdEntry, cmd_table, counted, checked, run_entry, dispatch_from, vc_dispatch,
}
use void_cache.Commands.Refused.{AuthKeeps, cmd_auth-AuthKeeps}
use void_cache.Commands.Dispatch.{
  send-AuthKeeps, cmd_hello-AuthKeeps, cmd_ping-AuthKeeps, cmd_select-AuthKeeps, with_sub-AuthKeeps,
  cmd_client-AuthKeeps, cmd_command-AuthKeeps,
}

-- An entry that runs for everybody keeps what a login keeps.
abbrev Guards : CmdEntry → Type 0
Guards e =
    ((e.acl_needed == 0) ≡ false)
    ⊎ ((h : Host) (s : Session) (args : List Arg) → AuthKeeps s (e.fn h s args))

abbrev AllGuard : List CmdEntry → Type 0
AllGuard [] = Unit {0}
AllGuard (e ∷ es) = Guards e × AllGuard es

cmd_table-AllGuard : AllGuard cmd_table
unfolding cmd_table cmd_quit cmd_reset reply cmd_wait cmd_acl cmd_cluster
cmd_table-AllGuard =
    (inr (λ h. cmd_ping-AuthKeeps h.mem))
    & (inr cmd_hello-AuthKeeps)
    & (inr (λ h. cmd_auth-AuthKeeps h.mem))
    & (inr (λ h. cmd_select-AuthKeeps h.mem))
    & (inr (λ h s args. (refl, refl, inl refl)))
    & (inr cmd_client-AuthKeeps)
    & (inl refl)
    & (inl refl)
    & (inl refl)
    & (inl refl)
    & (inl refl)
    & (inl refl)
    & (inl refl)
    & (inl refl)
    & (inl refl)
    & (inl refl)
    & (inl refl)
    & (inl refl)
    & (inl refl)
    & (inl refl)
    & (inl refl)
    & (inl refl)
    & (inl refl)
    & (inl refl)
    & (inl refl)
    & (inl refl)
    & (inl refl)
    & (inl refl)
    & (inl refl)
    & (inl refl)
    & (inl refl)
    & (inr cmd_command-AuthKeeps)
    & (inr (λ h s args. with_sub-AuthKeeps h s args _))
    & (inl refl)
    & (inl refl)
    & (inl refl)
    & (inr (λ h s args. (refl, refl, inl refl)))
    & (inr (λ h s args. with_sub-AuthKeeps h s args _))
    & (inl refl)
    & (inl refl)
    & (inl refl)
    & (inr (λ h s args. send-AuthKeeps h _ s))
    & (inl refl)
    & (inl refl)
    & tt

run_entry-AuthKeeps :
    (h : Host) (e : CmdEntry) (s : Session) (args : List Arg)
    → s.auth.require_auth ≡ true
    → s.conn.user ≡ none
    → Guards e
    → AuthKeeps s (run_entry h e s args)
unfolding run_entry need_auth refuse checked counted reply_error reply
run_entry-AuthKeeps h e s args required nobody (inl guarded) =
    rw (guarded, required, nobody) (refl, refl, inl refl)
run_entry-AuthKeeps h e s args required nobody (inr keeps) = elim (Bool-cases (e.acl_needed == 0)) [
  | inl open' ↦ rw open' (keeps h s args)
  | inr guarded ↦ rw (guarded, required, nobody) (refl, refl, inl refl)
]

dispatch_from-AuthKeeps :
    (h : Host) (es : List CmdEntry) (name : List ℕ) (s : Session) (args : List Arg)
    → s.auth.require_auth ≡ true
    → s.conn.user ≡ none
    → AllGuard es
    → AuthKeeps s (dispatch_from h es name s args)
unfolding dispatch_from
dispatch_from-AuthKeeps h [] name s args required nobody all = send-AuthKeeps h _ s
dispatch_from-AuthKeeps h (e ∷ es) name s args required nobody (g, all) =
    elim (Bool-cases (is_word name e.name)) [
      | inl this ↦ rw this (run_entry-AuthKeeps h e s args required nobody g)
      | inr other ↦ rw other (dispatch_from-AuthKeeps h es name s args required nobody all)
    ]

-- Where passwords are required, no command of a connection that has not logged in changes the cache
-- or the table of users; afterwards the connection still has no user, or one that `vc_auth_verify`
-- returned for some name and password.
pub vc_dispatch-AuthKeeps :
    (h : Host) (s : Session) (args : List Arg)
    → s.auth.require_auth ≡ true
    → s.conn.user ≡ none
    → AuthKeeps s (vc_dispatch h s args)
unfolding vc_dispatch
vc_dispatch-AuthKeeps h s [] required nobody = (refl, refl, inl refl)
vc_dispatch-AuthKeeps h s (name ∷ args) required nobody =
    dispatch_from-AuthKeeps h cmd_table name.bytes s (name ∷ args) required nobody
      cmd_table-AllGuard
