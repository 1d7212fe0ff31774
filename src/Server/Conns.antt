-- ===== src/Server/Conns.antt =====
-- The pool of connections of net/server.c, and `process_conn`. The calls run one at a time. A
-- server holds what all connections share, and the slots of the pool.
use void_cache.Prelude.{
  ℕ, suc, ◌*◌, List, [], ◌∷◌, Option, none, some, Bool, true, false, length, ltb, if◌then◌else◌,
}
use void_cache.Auth.{AuthDb}
use void_cache.Cache.{Cache}
use void_cache.Proto.{Buf, vc_buf_new}
use void_cache.Commands.Guard.{Config, Conn, Session}
use void_cache.Commands.Reply.{Host}
use void_cache.Server.{
  WriteResult, FlushEnd, flushed, would_block, failed, conn_flush, ReadResult, got, read_zero,
  read_again, read_failed, read_available, ServeEnd, waiting, broken, closing, serve,
}

-- VC_CONN_*, but for VC_CONN_CLOSING
pub data ConnState : Type 0 where
  free connected tls_hand authed : ConnState

-- One element of `conns`. `allocated` says whether `rbuf` and `wbuf` are not NULL, and `ssl` whether
-- `ssl` is not; `armed` is whether EPOLLOUT is waited for.
pub record Slot : Type 0 where
  pub state : ConnState
  pub ssl : Bool
  pub allocated : Bool
  pub armed : Bool
  pub conn : Conn
  pub rbuf : Buf
  pub last_active : ℕ

pub record Server : Type 0 where
  pub cfg : Config
  pub auth : AuthDb
  pub cache : Cache
  pub tls : Bool
  pub total_conns : ℕ
  pub total_commands : ℕ
  pub node_id : List ℕ
  pub conns : List Slot

abbrev empty_conn : Conn
empty_conn = record {
  fd = 0;
  user = none;
  resp3 = false;
  db_idx = 0;
  closing = false;
  wbuf = record { bytes = []; cap = 0; rpos = 0 };
  peer_addr = [];
  peer_port = 0;
}

-- a slot of the zeroed pool
abbrev pub free_slot : Slot
free_slot = record {
  state = ConnState.free;
  ssl = false;
  allocated = false;
  armed = false;
  conn = empty_conn;
  rbuf = record { bytes = []; cap = 0; rpos = 0 };
  last_active = 0;
}

-- VC_RBUF_INIT, VC_WBUF_INIT
abbrev pub buf_init : ℕ
buf_init = 16 * 1024

-- the fields that `conn_alloc` sets
unfoldable pub opened : ℕ → Slot → Slot
opened now sl = record sl {
  state = ConnState.connected;
  allocated = true;
  rbuf = vc_buf_new buf_init;
  ssl = false;
  last_active = now;
  conn = record sl.conn {
    wbuf = vc_buf_new buf_init;
    user = none;
    resp3 = false;
    db_idx = 0;
    closing = false;
  };
}

unfoldable pub is_free : ConnState → Bool
is_free ConnState.free = true
is_free ConnState.connected = false
is_free ConnState.tls_hand = false
is_free ConnState.authed = false

-- `conn_alloc`, where the buffers can be had: the number of the slot, and the pool; `none` is NULL.
unfoldable pub conn_alloc : ℕ → List Slot → Option ℕ × List Slot
unfolding is_free opened
conn_alloc now [] = (none, [])
conn_alloc now (sl ∷ sls) =
    let (i, sls') = conn_alloc now sls in
    if is_free sl.state
    then (some 0, opened now sl ∷ sls)
    else (elim i [ none ↦ none | some j ↦ some (suc j) ], sl ∷ sls')

unfoldable pub conn_close : Slot → Slot
unfolding is_free
conn_close sl =
    if is_free sl.state
    then sl
    else record sl { state = ConnState.free; ssl = false; allocated = false; armed = false }

-- the session of a connection, and the server after it
abbrev pub session_of : Server → Slot → Session
session_of srv sl = record {
  cfg = srv.cfg;
  auth = srv.auth;
  cache = srv.cache;
  conn = sl.conn;
  total_conns = srv.total_conns;
  total_commands = srv.total_commands;
  node_id = srv.node_id;
}

abbrev pub after : Server → Session → Server
after srv s = record srv { auth = s.auth; cache = s.cache; total_commands = s.total_commands }

-- a connection after a flush
unfoldable pub flush_slot : List WriteResult → Slot → FlushEnd × Slot
flush_slot ws sl =
    let (e, b, sent) = conn_flush ws sl.conn.wbuf in
    (e, record sl { conn = record sl.conn { wbuf = b } })

-- The end of `process_conn`: flush what there is, and wait for EPOLLOUT if that would block.
unfoldable pub flush_by : FlushEnd × Slot → Slot
unfolding conn_close
flush_by (flushed, sl) = sl
flush_by (would_block, sl) = record sl { armed = true }
flush_by (failed, sl) = conn_close sl

unfoldable pub finish_slot : List WriteResult → Slot → Slot
unfolding flush_by flush_slot
finish_slot ws sl = if ltb 0 (length sl.conn.wbuf.bytes) then flush_by (flush_slot ws sl) else sl

-- what `process_conn` does after its second loop; the loop has rounds enough (`serve_total`), so the
-- first case does not occur
unfoldable pub served :
    List WriteResult → Server → Slot → Option (ServeEnd × Session × Buf) → Server × Slot
unfolding finish_slot flush_slot conn_close
served ws srv sl none = (srv, sl)
served ws srv sl (some (waiting, s, b)) =
    (after srv s, finish_slot ws (record sl { conn = s.conn; rbuf = b }))
served ws srv sl (some (broken, s, b)) =
    (after srv s, conn_close (flush_slot ws (record sl { conn = s.conn; rbuf = b })).1)
served ws srv sl (some (closing, s, b)) =
    (after srv s, conn_close (flush_slot ws (record sl { conn = s.conn; rbuf = b })).1)

-- whether the first loop reads something
reads_some : List ReadResult → Bool
reads_some [] = false
reads_some (got bytes ∷ rs) = true
reads_some (read_zero ∷ rs) = false
reads_some (read_again ∷ rs) = false
reads_some (read_failed ∷ rs) = false

-- what `process_conn` does after its first loop, of which `active` is the time of the last read
unfoldable pub process_read :
    Host → ℕ → List WriteResult → Server → Slot → Option Buf → Server × Slot
unfolding served
process_read h active ws srv sl none = (srv, conn_close sl)
process_read h active ws srv sl (some b) =
    served ws srv (record sl { rbuf = b; last_active = active })
      (serve h (length b.bytes) (session_of srv sl) b)

unfoldable pub process_conn :
    Host → ℕ → List ReadResult → List WriteResult → Server → Slot → Server × Slot
unfolding process_read reads_some
process_conn h now rs ws srv sl =
    process_read h (if reads_some rs then now else sl.last_active) ws srv sl
      (read_available h.mem rs sl.rbuf)
