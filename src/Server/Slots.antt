-- ===== src/Server/Slots.antt =====
-- The connections of net/server.c over time: an event, a new connection or a sweep at a time.
pub mod Events
pub mod Steps
use void_cache.Prelude.{
  if_both, ℕ, zero, suc, ◌≡◌, ◌∙◌, refl, ap, List, [], ◌∷◌, Option, none, some, Bool, true, false,
  length, ltb, ◌==◌, if◌then◌else◌, Bool-cases, ◌⊎◌, inl, inr, arith,
}
use void_cache.Auth.{User, AuthDb, vc_auth_verify}
use void_cache.Proto.{Buf, vc_buf_consume}
use void_cache.Proto.Parse.{Parsed, more, err, ok, resp_parse_command}
use void_cache.Commands.Guard.{Conn, Session, reply_error, reply}
use void_cache.Commands.Reply.{Host}
use void_cache.Commands.Table.{vc_dispatch}
use void_cache.Commands.Users.{Verifies}
use void_cache.Commands.Users.Table.{vc_dispatch-Verifies}
use void_cache.Server.{
  WriteResult, FlushEnd, flushed, would_block, failed, ReadResult, ServeEnd, waiting, broken,
  closing, protocol_error, serve_parsed, serve, read_available,
}
use void_cache.Server.Conns.{
  ConnState, Slot, Server, is_free, conn_close, session_of, after, flush_slot, flush_by,
  finish_slot, served, process_read, process_conn,
}
use void_cache.Server.Events.{
  Handshake, complete, in_progress, broken_off, tls_do_handshake, Event, event_in, event_resumed,
  event_out, event_by,
}

-- a connection without a user, or with one whose name and password were given
abbrev pub IsOwned : AuthDb → Conn → Type 0
IsOwned a c =
    (c.user ≡ none)
    ⊎ ((u : User) × (uname : List ℕ) × (upass : List ℕ) × (c.user ≡ some u)
        × (vc_auth_verify a uname upass ≡ some u))

-- what a state says of a slot
abbrev pub OfState : ConnState → Slot → Type 0
OfState ConnState.free sl = (sl.allocated ≡ false) × (sl.ssl ≡ false)
OfState ConnState.connected sl = sl.allocated ≡ true
OfState ConnState.authed sl = sl.allocated ≡ true
OfState ConnState.tls_hand sl = (sl.allocated ≡ true) × (sl.ssl ≡ true) × (sl.conn.user ≡ none)

abbrev pub IsSlot : AuthDb → Slot → Type 0
IsSlot a sl = OfState sl.state sl × IsOwned a sl.conn

-- the states in which commands run
pub runs : ConnState → Bool
runs ConnState.free = false
runs ConnState.connected = true
runs ConnState.authed = true
runs ConnState.tls_hand = false

abbrev pub Runs : AuthDb → Slot → Type 0
Runs a sl = (runs sl.state ≡ true) × (sl.allocated ≡ true) × IsOwned a sl.conn

pub Runs-OfState :
    (st : ConnState) (sl : Slot) → runs st ≡ true → sl.allocated ≡ true → OfState st sl
unfolding runs
Runs-OfState ConnState.free sl r e = absurd (cc)
Runs-OfState ConnState.connected sl r e = e
Runs-OfState ConnState.authed sl r e = e
Runs-OfState ConnState.tls_hand sl r e = absurd (cc)

pub Runs-IsSlot : (a : AuthDb) (sl : Slot) → Runs a sl → IsSlot a sl
Runs-IsSlot a sl (r, e, o) = (Runs-OfState sl.state sl r e, o)

pub conn_close-IsSlot : (a : AuthDb) (sl : Slot) → IsSlot a sl → IsSlot a (conn_close sl)
unfolding conn_close
conn_close-IsSlot a sl (k, o) = elim (Bool-cases (is_free sl.state)) [
  | inl this ↦ rw this (k, o)
  | inr in_use ↦ rw in_use ((refl, refl), o)
]

-- the same users, and the user of the connection none or one who has logged in
abbrev pub Keeps : AuthDb → Session → Type 0
Keeps a s = (s.auth ≡ a) × IsOwned a s.conn

Verifies-Keeps : (a : AuthDb) (s t : Session) → Verifies s t → Keeps a s → Keeps a t
Verifies-Keeps a s t (e, inl same) (d, inl nobody) = (e ∙ d, inl (same ∙ nobody))
Verifies-Keeps a s t (e, inl same) (d, inr (u, n, p, is, v)) = (e ∙ d, inr (u, n, p, same ∙ is, v))
Verifies-Keeps a s t (e, inr (u, n, p, is, v)) (d, o) = (e ∙ d, inr (u, n, p, is, rw (← d) v))

abbrev pub EndKeeps : AuthDb → Option (ServeEnd × Session × Buf) → Type 0
EndKeeps a none = Unit {0}
EndKeeps a (some (e, s, b)) = Keeps a s

serve_parsed-Keeps :
    (a : AuthDb) (h : Host) (s : Session) (b : Buf)
    (next : Session → Buf → Option (ServeEnd × Session × Buf)) (p : Parsed)
    → Keeps a s
    → ((t : Session) (b' : Buf) → Keeps a t → EndKeeps a (next t b'))
    → EndKeeps a (serve_parsed h s b next p)
unfolding serve_parsed protocol_error reply_error reply
serve_parsed-Keeps a h s b next more k go = k
serve_parsed-Keeps a h s b next err k go = k
serve_parsed-Keeps a h s b next (ok cmd n) k go =
    let t = vc_dispatch h s cmd.args in
    let kt = Verifies-Keeps a s t (vc_dispatch-Verifies h s cmd.args) k in
    if_both (EndKeeps a) t.conn.closing (some (ServeEnd.closing, t, vc_buf_consume b n))
      (next t (vc_buf_consume b n)) kt (go t (vc_buf_consume b n) kt)

pub serve-Keeps :
    (a : AuthDb) (h : Host) (n : ℕ) (s : Session) (b : Buf) → Keeps a s → EndKeeps a (serve h n s b)
unfolding serve
serve-Keeps a h zero s b k =
    if_both (EndKeeps a) (length b.bytes == 0) (some (ServeEnd.waiting, s, b)) none k tt
serve-Keeps a h (suc n) s b k =
    if_both (EndKeeps a) (length b.bytes == 0) (some (ServeEnd.waiting, s, b)) _ k (
      serve_parsed-Keeps a h s b (serve h n) (resp_parse_command h.mem b.bytes) k
        (serve-Keeps a h n))
