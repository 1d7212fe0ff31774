-- ===== src/Server/Slots/Events.antt =====
-- One event of net/server.c on a slot, step by step.
use void_cache.Prelude.{
  if_both, ℕ, ◌≡◌, ap, List, Option, none, some, Bool, true, false, length, ltb, if◌then◌else◌,
  Bool-cases, inl, inr,
}
use void_cache.Auth.{AuthDb}
use void_cache.Proto.{Buf}
use void_cache.Commands.Guard.{Session}
use void_cache.Commands.Reply.{Host}
use void_cache.Server.{
  WriteResult, FlushEnd, flushed, would_block, failed, ServeEnd, waiting, broken, closing,
  read_available,
}
use void_cache.Server.Conns.{
  ConnState, Slot, Server, conn_close, session_of, flush_slot, flush_by, finish_slot, served,
  process_read, process_conn,
}
use void_cache.Server.Events.{
  Handshake, complete, in_progress, broken_off, tls_do_handshake, Event, event_in, event_resumed,
  event_out, event_by,
}
use void_cache.Server.Slots.{
  OfState, IsSlot, runs, Runs, Runs-OfState, Runs-IsSlot, conn_close-IsSlot, Keeps, EndKeeps,
  serve-Keeps,
}

-- a server with these users and slots, and a slot of it that is as it should be
abbrev pub Good : AuthDb → List Slot → Server × Slot → Type 0
Good a cs (srv, sl) = (srv.auth ≡ a) × (srv.conns ≡ cs) × IsSlot a sl

flush_by-IsSlot : (a : AuthDb) (r : FlushEnd × Slot) → Runs a r.1 → IsSlot a (flush_by r)
unfolding flush_by
flush_by-IsSlot a (flushed, sl) r = Runs-IsSlot a sl r
flush_by-IsSlot a (would_block, sl) (r, e, o) = (Runs-OfState sl.state _ r e, o)
flush_by-IsSlot a (failed, sl) r = conn_close-IsSlot a sl (Runs-IsSlot a sl r)

finish_slot-IsSlot :
    (a : AuthDb) (ws : List WriteResult) (sl : Slot) → Runs a sl → IsSlot a (finish_slot ws sl)
unfolding finish_slot flush_slot
finish_slot-IsSlot a ws sl r = elim (Bool-cases (ltb 0 (length sl.conn.wbuf.bytes))) [
  | inl some' ↦ rw some' (flush_by-IsSlot a (flush_slot ws sl) r)
  | inr nothing ↦ rw nothing (Runs-IsSlot a sl r)
]

module _ (a : AuthDb) (cs : List Slot) where
  -- a slot after its commands
  serviced :
      (sl : Slot) (s : Session) (b : Buf)
      → Runs a sl
      → Keeps a s
      → Runs a (record sl { conn = s.conn; rbuf = b })
  serviced sl s b (r, e, o) (d, k) = (r, e, k)

  served-Good :
      (ws : List WriteResult) (srv : Server) (sl : Slot) (o : Option (ServeEnd × Session × Buf))
      → srv.auth ≡ a
      → srv.conns ≡ cs
      → Runs a sl
      → EndKeeps a o
      → Good a cs (served ws srv sl o)
  unfolding served flush_slot
  served-Good ws srv sl none ea ec r k = (ea, ec, Runs-IsSlot a sl r)
  served-Good ws srv sl (some (waiting, s, b)) ea ec r k =
      (k.0, ec, finish_slot-IsSlot a ws _ (serviced sl s b r k))
  served-Good ws srv sl (some (broken, s, b)) ea ec r k = (
    k.0,
    ec,
    conn_close-IsSlot a _ (
        Runs-IsSlot a (flush_slot ws (record sl { conn = s.conn; rbuf = b })).1
          (serviced sl s b r k)),
  )
  served-Good ws srv sl (some (closing, s, b)) ea ec r k = (
    k.0,
    ec,
    conn_close-IsSlot a _ (
        Runs-IsSlot a (flush_slot ws (record sl { conn = s.conn; rbuf = b })).1
          (serviced sl s b r k)),
  )

  process_read-Good :
      (h : Host) (active : ℕ) (ws : List WriteResult) (srv : Server) (sl : Slot) (o : Option Buf)
      → srv.auth ≡ a
      → srv.conns ≡ cs
      → Runs a sl
      → Good a cs (process_read h active ws srv sl o)
  unfolding process_read
  process_read-Good h active ws srv sl none ea ec r =
      (ea, ec, conn_close-IsSlot a sl (Runs-IsSlot a sl r))
  process_read-Good h active ws srv sl (some b) ea ec r =
      served-Good ws srv (record sl { rbuf = b; last_active = active }) _ ea ec r
        (serve-Keeps a h (length b.bytes) (session_of srv sl) b (ea, r.2))

  event_in-Good :
      (h : Host) (now : ℕ) (ev : Event) (srv : Server) (sl : Slot)
      → srv.auth ≡ a
      → srv.conns ≡ cs
      → Runs a sl
      → Good a cs (event_in h now ev srv sl)
  unfolding event_in process_conn
  event_in-Good h now ev srv sl ea ec r =
      if_both (Good a cs) ev.readable _ _
        (process_read-Good h _ ev.writes srv sl (read_available h.mem ev.reads sl.rbuf) ea ec r)
        (ea, ec, Runs-IsSlot a sl r)

  event_resumed-Good :
      (h : Host) (now : ℕ) (ev : Event) (srv : Server) (p : FlushEnd × Slot)
      → srv.auth ≡ a
      → srv.conns ≡ cs
      → Runs a p.1
      → Good a cs (event_resumed h now ev srv p)
  unfolding event_resumed
  event_resumed-Good h now ev srv (flushed, sl) ea ec r =
      event_in-Good h now ev srv (record sl { armed = false }) ea ec r
  event_resumed-Good h now ev srv (would_block, sl) ea ec r = event_in-Good h now ev srv sl ea ec r
  event_resumed-Good h now ev srv (failed, sl) ea ec r =
      (ea, ec, conn_close-IsSlot a sl (Runs-IsSlot a sl r))

  event_out-Good :
      (h : Host) (now : ℕ) (ev : Event) (srv : Server) (sl : Slot)
      → srv.auth ≡ a
      → srv.conns ≡ cs
      → Runs a sl
      → Good a cs (if ev.hup then (srv, conn_close sl) else event_out h now ev srv sl)
  unfolding event_out flush_slot
  event_out-Good h now ev srv sl ea ec r =
      if_both (Good a cs) ev.hup (srv, conn_close sl) _
        (ea, ec, conn_close-IsSlot a sl (Runs-IsSlot a sl r))
        (if_both (Good a cs) ev.out (event_resumed h now ev srv (flush_slot ev.resumed sl)) _
          (event_resumed-Good h now ev srv (flush_slot ev.resumed sl) ea ec r)
          (event_in-Good h now ev srv sl ea ec r))

tls_do_handshake-IsSlot :
    (a : AuthDb) (required : Bool) (end' : Handshake) (sl : Slot)
    → IsSlot a sl
    → sl.allocated ≡ true
    → IsSlot a (tls_do_handshake required end' sl)
unfolding tls_do_handshake
tls_do_handshake-IsSlot a true complete sl k e = (e, k.1)
tls_do_handshake-IsSlot a false complete sl k e = (e, k.1)
tls_do_handshake-IsSlot a required in_progress sl k e = k
tls_do_handshake-IsSlot a required broken_off sl k e = conn_close-IsSlot a sl k

pub event_by-Good :
    (a : AuthDb) (cs : List Slot) (h : Host) (now : ℕ) (ev : Event) (srv : Server) (sl : Slot)
    (st : ConnState)
    → srv.auth ≡ a
    → srv.conns ≡ cs
    → OfState st sl
    → sl.state ≡ st
    → IsSlot a sl
    → Good a cs (event_by h now ev srv sl st)
unfolding event_by runs
event_by-Good a cs h now ev srv sl ConnState.free ea ec k e all = (ea, ec, all)
event_by-Good a cs h now ev srv sl ConnState.connected ea ec k e all =
    event_out-Good a cs h now ev srv sl ea ec (ap runs e, k, all.1)
event_by-Good a cs h now ev srv sl ConnState.authed ea ec k e all =
    event_out-Good a cs h now ev srv sl ea ec (ap runs e, k, all.1)
event_by-Good a cs h now ev srv sl ConnState.tls_hand ea ec k e all =
    if_both (Good a cs) ev.hup (srv, conn_close sl)
      (srv, tls_do_handshake srv.auth.require_auth ev.handshake sl)
      (ea, ec, conn_close-IsSlot a sl all)
      (ea, ec, tls_do_handshake-IsSlot a srv.auth.require_auth ev.handshake sl all k.0)
