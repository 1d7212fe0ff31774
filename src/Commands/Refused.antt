-- ===== src/Commands/Refused.antt =====
-- What AUTH of net/commands.c changes.
use void_cache.Prelude.{
  ℕ, ◌≡◌, ◌⊎◌, inl, inr, refl, List, [], ◌∷◌, Option, none, some, Bool, true, false, if◌then◌else◌,
}
use void_cache.Auth.{User, vc_auth_verify}
use void_cache.Proto.Parse.{Arg}
use void_cache.Proto.Write.{resp_write_ok}
use void_cache.Commands.Guard.{Session, reply, reply_error, default_name}
use void_cache.Commands.Connection.{cmd_auth, auth_as, logged_in}

-- what an AUTH may have made of the session
abbrev pub AuthKeeps : Session → Session → Type 0
AuthKeeps s s' =
    (s'.cache ≡ s.cache)
    × (s'.auth ≡ s.auth)
    × ((s'.conn.user ≡ s.conn.user)
        ⊎ ((u : User) × (uname : List ℕ) × (upass : List ℕ) × (s'.conn.user ≡ some u)
            × (vc_auth_verify s.auth uname upass ≡ some u)))

auth_as-AuthKeeps :
    (mem : ℕ → Bool) (s : Session) (uname upass : List ℕ) → AuthKeeps s (auth_as mem s uname upass)
unfolding auth_as logged_in reply_error reply
auth_as-AuthKeeps mem s uname upass = by_mode s.auth.require_auth _ refl
  where
    by_answer :
        (o : Option User) → vc_auth_verify s.auth uname upass ≡ o → AuthKeeps s (logged_in mem s o)
    by_answer none e = (refl, refl, inl refl)
    by_answer (some u) e = (refl, refl, inr (u, uname, upass, refl, e))

    by_mode :
        (t : Bool) (o : Option User)
        → vc_auth_verify s.auth uname upass ≡ o
        → AuthKeeps s (if t then logged_in mem s o else reply s (resp_write_ok mem s.conn.wbuf))
    by_mode true o e = by_answer o e
    by_mode false o e = (refl, refl, inl refl)

-- AUTH with any arguments changes neither the cache nor the table of users, and the connection
-- gets no user but one that `vc_auth_verify` returned.
pub cmd_auth-AuthKeeps :
    (mem : ℕ → Bool) (s : Session) (args : List Arg) → AuthKeeps s (cmd_auth mem s args)
unfolding cmd_auth reply_error reply
cmd_auth-AuthKeeps mem s [] = (refl, refl, inl refl)
cmd_auth-AuthKeeps mem s (name ∷ []) = (refl, refl, inl refl)
cmd_auth-AuthKeeps mem s (name ∷ upass ∷ []) = auth_as-AuthKeeps mem s default_name upass.bytes
cmd_auth-AuthKeeps mem s (name ∷ uname ∷ upass ∷ []) =
    auth_as-AuthKeeps mem s uname.bytes upass.bytes
cmd_auth-AuthKeeps mem s (name ∷ a ∷ b ∷ c ∷ others) = (refl, refl, inl refl)
