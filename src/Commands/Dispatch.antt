-- ===== src/Commands/Dispatch.antt =====
-- `vc_dispatch` of net/commands.c on a connection that has not logged in.
pub mod Table
use void_cache.Prelude.{
  ℕ, ◌≡◌, refl, ◌∙◌, List, [], ◌∷◌, Option, none, some, Bool, true, false, ◌==◌, ◌⊎◌, inl, inr,
  ◌||◌, arith, Bool-cases, if◌then◌else◌, codes, ◌&◌,
}
use void_cache.Auth.{User, vc_auth_verify}
use void_cache.Proto.Parse.{Arg, until_nul}
use void_cache.Commands.Guard.{
  Session, reply, reply_error, need_auth, refuse, is_word, strtoll_value, to_uint32,
}
use void_cache.Commands.Connection.{
  cmd_ping, cmd_hello, cmd_select, cmd_quit, cmd_client, cmd_reset, hello_login, hello_options,
  hello_end, hello_as,
}
use void_cache.Commands.Compat.{cmd_command, cmd_acl, cmd_wait, with_sub}
use void_cache.Commands.Admin.{cmd_cluster}
use void_cache.Commands.Reply.{Host, Reply, send, send-Untouched, Untouched}
use void_cache.Commands.Table.{
  CmdEntry, cmd_table, counted, checked, run_entry, dispatch_from, vc_dispatch,
}
use void_cache.Commands.Refused.{AuthKeeps, cmd_auth-AuthKeeps}

-- a session that has replied alone
Untouched-AuthKeeps : (s s' : Session) → Untouched s s' → AuthKeeps s s'
Untouched-AuthKeeps s s' (a, b, c) = (a, b, inl c)

pub send-AuthKeeps : (h : Host) (rs : List Reply) (s : Session) → AuthKeeps s (send h rs s)
send-AuthKeeps h rs s = Untouched-AuthKeeps s (send h rs s) (send-Untouched h rs s)

-- one step after another
AuthKeeps-trans : (s t u : Session) → AuthKeeps s t → AuthKeeps t u → AuthKeeps s u
AuthKeeps-trans s t u (a, b, c) (a', b', inl c') = (a' ∙ a, b' ∙ b, by_first c)
  where
    by_first :
        (t.conn.user ≡ s.conn.user)
          ⊎ ((v : User) × (uname : List ℕ) × (upass : List ℕ) × (t.conn.user ≡ some v)
              × (vc_auth_verify s.auth uname upass ≡ some v))
        → (u.conn.user ≡ s.conn.user)
          ⊎ ((v : User) × (uname : List ℕ) × (upass : List ℕ) × (u.conn.user ≡ some v)
              × (vc_auth_verify s.auth uname upass ≡ some v))
    by_first (inl e) = inl (c' ∙ e)
    by_first (inr (v, n, p, e, f)) = inr (v, n, p, c' ∙ e, f)
AuthKeeps-trans s t u (a, b, c) (a', b', inr (v, n, p, e, f)) =
    (a' ∙ a, b' ∙ b, inr (v, n, p, e, rw (← b) f))

hello_end-AuthKeeps :
    (h : Host) (proto : ℕ) (s : Session) (r : Bool × Session)
    → AuthKeeps s r.1
    → AuthKeeps s (hello_end h proto r)
unfolding hello_end reply
hello_end-AuthKeeps h proto s (false, t) k = k
hello_end-AuthKeeps h proto s (true, t) k = k

-- a login in HELLO, where the rest of the loop keeps what a login keeps
hello_login-AuthKeeps :
    (h : Host) (s : Session) (uname upass : List ℕ) (next : Session → Bool × Session)
    → ((t : Session) → AuthKeeps t (next t).1)
    → AuthKeeps s (hello_login h s (vc_auth_verify s.auth uname upass) next).1
unfolding hello_login reply_error reply
hello_login-AuthKeeps h s uname upass next keeps =
    by_answer (vc_auth_verify s.auth uname upass) refl
  where
    by_answer :
        (o : Option User)
        → vc_auth_verify s.auth uname upass ≡ o
        → AuthKeeps s (hello_login h s o next).1
    by_answer none e = (refl, refl, inl refl)
    by_answer (some u) e =
        let t = record s { conn = record s.conn { user = some u } } in
        AuthKeeps-trans s t (next t).1 (refl, refl, inr (u, uname, upass, refl, e)) (keeps t)

hello_options-AuthKeeps :
    (h : Host) (args : List Arg) (s : Session) → AuthKeeps s (hello_options h args s).1
unfolding hello_options
hello_options-AuthKeeps h [] s = (refl, refl, inl refl)
hello_options-AuthKeeps h (a ∷ []) s = (refl, refl, inl refl)
hello_options-AuthKeeps h (a ∷ b ∷ []) s = (refl, refl, inl refl)
hello_options-AuthKeeps h (a ∷ b ∷ c ∷ rest) s =
    by_word (is_word a.bytes (codes "AUTH")) (hello_options-AuthKeeps h rest)
      (hello_options-AuthKeeps h (b ∷ c ∷ rest) s)
  where
    by_word :
        (w : Bool)
        → ((t : Session) → AuthKeeps t (hello_options h rest t).1)
        → AuthKeeps s (hello_options h (b ∷ c ∷ rest) s).1
        → AuthKeeps s
            (elim w as (λ _. Bool × Session) [
              | true ↦
                  hello_login h s
                    (vc_auth_verify s.auth (until_nul b.bytes) (until_nul c.bytes))
                    (hello_options h rest)
              | false ↦ hello_options h (b ∷ c ∷ rest) s
            ]).1
    by_word true k l =
        hello_login-AuthKeeps h s (until_nul b.bytes) (until_nul c.bytes) (hello_options h rest) k
    by_word false k l = l

hello_as-AuthKeeps :
    (h : Host) (s : Session) (proto : ℕ) (options : List Arg)
    → AuthKeeps s (hello_as h s proto options)
unfolding hello_as reply_error reply
hello_as-AuthKeeps h s proto options = by_version (proto == 2 || proto == 3)
  where
    by_version :
        (v : Bool)
        → AuthKeeps s (
            if v
            then hello_end h proto (hello_options h options s)
            else reply_error h.mem (codes "NOPROTO") (codes "unsupported protocol version") s)
    by_version true = hello_end-AuthKeeps h proto s _ (hello_options-AuthKeeps h options s)
    by_version false = (refl, refl, inl refl)

pub cmd_hello-AuthKeeps :
    (h : Host) (s : Session) (args : List Arg) → AuthKeeps s (cmd_hello h s args)
unfolding cmd_hello
cmd_hello-AuthKeeps h s [] = hello_as-AuthKeeps h s 2 []
cmd_hello-AuthKeeps h s (name ∷ []) = hello_as-AuthKeeps h s 2 []
cmd_hello-AuthKeeps h s (name ∷ v ∷ options) =
    hello_as-AuthKeeps h s (to_uint32 (strtoll_value v.bytes)) options

pub cmd_ping-AuthKeeps :
    (m : ℕ → Bool) (s : Session) (args : List Arg) → AuthKeeps s (cmd_ping m s args)
unfolding cmd_ping reply
cmd_ping-AuthKeeps m s [] = (refl, refl, inl refl)
cmd_ping-AuthKeeps m s (name ∷ []) = (refl, refl, inl refl)
cmd_ping-AuthKeeps m s (name ∷ a ∷ others) = (refl, refl, inl refl)

pub cmd_select-AuthKeeps :
    (m : ℕ → Bool) (s : Session) (args : List Arg) → AuthKeeps s (cmd_select m s args)
unfolding cmd_select reply reply_error
cmd_select-AuthKeeps m s [] = (refl, refl, inl refl)
cmd_select-AuthKeeps m s (name ∷ []) = (refl, refl, inl refl)
cmd_select-AuthKeeps m s (name ∷ idx ∷ []) = (ground arith, ground arith, inl (ground arith))
cmd_select-AuthKeeps m s (name ∷ a ∷ b ∷ others) = (refl, refl, inl refl)

pub with_sub-AuthKeeps :
    (h : Host) (s : Session) (args : List Arg) (replies : List ℕ → List Reply)
    → AuthKeeps s (with_sub h s args replies)
unfolding with_sub
with_sub-AuthKeeps h s [] replies = send-AuthKeeps h _ s
with_sub-AuthKeeps h s (name ∷ []) replies = send-AuthKeeps h _ s
with_sub-AuthKeeps h s (name ∷ sub ∷ others) replies = send-AuthKeeps h _ s

pub cmd_client-AuthKeeps :
    (h : Host) (s : Session) (args : List Arg) → AuthKeeps s (cmd_client h s args)
unfolding cmd_client
cmd_client-AuthKeeps h s [] = send-AuthKeeps h _ s
cmd_client-AuthKeeps h s (name ∷ []) = send-AuthKeeps h _ s
cmd_client-AuthKeeps h s (name ∷ sub ∷ others) = send-AuthKeeps h _ s

pub cmd_command-AuthKeeps :
    (h : Host) (s : Session) (args : List Arg) → AuthKeeps s (cmd_command h s args)
unfolding cmd_command
cmd_command-AuthKeeps h s [] = send-AuthKeeps h _ s
cmd_command-AuthKeeps h s (name ∷ []) = send-AuthKeeps h _ s
cmd_command-AuthKeeps h s (name ∷ sub ∷ others) = send-AuthKeeps h _ s
