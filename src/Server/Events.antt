-- ===== src/Server/Events.antt =====
-- What a worker of net/server.c does at an event on a connection, at a new connection, and in its
-- sweep.
use void_cache.Prelude.{
  ℕ, ◌+◌, ◌-◌, ◌*◌, List, Option, none, some, Bool, false, ltb, if◌then◌else◌, get_or, set, map,
}
use void_cache.Hash.{word64}
use void_cache.Commands.Reply.{Host}
use void_cache.Server.{WriteResult, FlushEnd, flushed, would_block, failed, ReadResult}
use void_cache.Server.Conns.{
  ConnState, Slot, Server, free_slot, is_free, conn_alloc, conn_close, flush_slot, process_conn,
}

-- what `SSL_accept` returns
pub data Handshake : Type 0 where
  complete in_progress broken_off : Handshake

unfoldable pub tls_do_handshake : Bool → Handshake → Slot → Slot
unfolding conn_close
tls_do_handshake require_auth complete sl = record sl {
  state = if require_auth then ConnState.connected else ConnState.authed;
}
tls_do_handshake require_auth in_progress sl = sl
tls_do_handshake require_auth broken_off sl = conn_close sl

-- One event of `epoll_wait` on a connection, with what the system calls return: whether the peer has
-- hung up, whether the socket can be written and read, and the results of the calls.
pub record Event : Type 0 where
  pub hup : Bool
  pub out : Bool
  pub readable : Bool
  pub handshake : Handshake
  pub resumed : List WriteResult
  pub reads : List ReadResult
  pub writes : List WriteResult

-- EPOLLIN
unfoldable pub event_in : Host → ℕ → Event → Server → Slot → Server × Slot
unfolding process_conn
event_in h now ev srv sl =
    if ev.readable then process_conn h now ev.reads ev.writes srv sl else (srv, sl)

-- after the flush of EPOLLOUT
unfoldable pub event_resumed : Host → ℕ → Event → Server → FlushEnd × Slot → Server × Slot
unfolding event_in conn_close
event_resumed h now ev srv (flushed, sl) = event_in h now ev srv (record sl { armed = false })
event_resumed h now ev srv (would_block, sl) = event_in h now ev srv sl
event_resumed h now ev srv (failed, sl) = (srv, conn_close sl)

-- EPOLLOUT
unfoldable pub event_out : Host → ℕ → Event → Server → Slot → Server × Slot
unfolding event_resumed event_in flush_slot
event_out h now ev srv sl =
    if ev.out
    then event_resumed h now ev srv (flush_slot ev.resumed sl)
    else event_in h now ev srv sl

-- an event on a slot by its state
unfoldable pub event_by : Host → ℕ → Event → Server → Slot → ConnState → Server × Slot
unfolding event_out tls_do_handshake
event_by h now ev srv sl ConnState.free = (srv, sl)
event_by h now ev srv sl ConnState.connected =
    if ev.hup then (srv, conn_close sl) else event_out h now ev srv sl
event_by h now ev srv sl ConnState.authed =
    if ev.hup then (srv, conn_close sl) else event_out h now ev srv sl
event_by h now ev srv sl ConnState.tls_hand =
    if ev.hup
    then (srv, conn_close sl)
    else (srv, tls_do_handshake srv.auth.require_auth ev.handshake sl)

-- an existing connection in `worker_thread`
unfoldable pub on_event : Host → ℕ → Event → Server → ℕ → Server
unfolding event_by
on_event h now ev srv i =
    let sl = get_or srv.conns i free_slot in
    let (srv', sl') = event_by h now ev srv sl sl.state in
    record srv' { conns = set srv'.conns i sl' }

-- a new connection that has got a slot
unfoldable pub accepted : ℕ → List ℕ → ℕ → Bool → Slot → Slot
accepted fd addr port tls sl = record sl {
  state = if tls then ConnState.tls_hand else sl.state;
  ssl = tls;
  conn = record sl.conn { fd = fd; peer_addr = addr; peer_port = port };
}

unfoldable pub accept_slot : ℕ → List ℕ → ℕ → Server → Option ℕ × List Slot → Server
unfolding accepted
accept_slot fd addr port srv (none, sls) = srv
accept_slot fd addr port srv (some i, sls) = record srv {
  conns = set sls i (accepted fd addr port srv.tls (get_or sls i free_slot));
  total_conns = word64 (srv.total_conns + 1);
}

-- a new connection in `worker_thread`, where `accept4` has returned `fd`
unfoldable pub on_accept : ℕ → ℕ → List ℕ → ℕ → Server → Server
unfolding accept_slot conn_alloc
on_accept now fd addr port srv = accept_slot fd addr port srv (conn_alloc now srv.conns)

-- VC_CONN_TIMEOUT_S in nanoseconds
abbrev pub timeout_ns : ℕ
timeout_ns = 300 * 1_000_000_000

-- one slot of the idle sweep
unfoldable pub sweep_slot : ℕ → Slot → Slot
unfolding is_free conn_close
sweep_slot now sl =
    if is_free sl.state
    then sl
    else if ltb timeout_ns (now - sl.last_active)
    then conn_close sl
    else sl

unfoldable pub sweep : ℕ → Server → Server
unfolding sweep_slot
sweep now srv = record srv { conns = map (sweep_slot now) srv.conns }
