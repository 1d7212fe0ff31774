-- ===== src/Server.antt =====
-- The connections of net/server.c: reading, parsing and dispatching, and writing. What the system
-- calls return is given by lists of events. A state VC_CONN_CLOSING is `closing` of the connection;
-- it never outlives the call that meets it.
pub mod Conns
pub mod Events
pub mod Flush
pub mod Pipeline
pub mod Slots
mod Tests
use void_cache.Prelude.{
  ℕ, zero, suc, ◌+◌, ◌-◌, List, [], ◌∷◌, ◌++◌, Option, none, some, Bool, true, false, length, take,
  drop, leb, ltb, ◌==◌, if◌then◌else◌, codes,
}
use void_cache.Proto.{Buf, vc_buf_grow, vc_buf_reset, vc_buf_consume}
use void_cache.Proto.Parse.{Arg, Cmd, Parsed, more, err, ok, resp_parse_command}
use void_cache.Commands.Guard.{Conn, Session, reply_error, err_code}
use void_cache.Commands.Reply.{Host}
use void_cache.Commands.Table.{vc_dispatch}

-- what a `write` or an `SSL_write` returns
pub data WriteResult : Type 0 where
  wrote : ℕ → WriteResult
  write_zero write_again write_failed : WriteResult

-- what `conn_flush` returns: 0, 1 and -1
pub data FlushEnd : Type 0 where
  flushed would_block failed : FlushEnd

-- the loop of `conn_flush` at a result that ends it, if there is something left to send
unfoldable pub flush_end : Buf → FlushEnd → FlushEnd × Buf × List ℕ
flush_end b e =
    if ltb b.rpos (length b.bytes) then (e, b, []) else (FlushEnd.flushed, vc_buf_reset b, [])

-- `conn_flush`: how it ends, the buffer, and the bytes that have gone out. A call sends at most what
-- it is given; no more results mean that the last call would block.
unfoldable pub conn_flush : List WriteResult → Buf → FlushEnd × Buf × List ℕ
unfolding flush_end
conn_flush [] b = flush_end b FlushEnd.would_block
conn_flush (wrote n ∷ rs) b =
    let sent = take n (drop b.rpos b.bytes) in
    let (e, b', more') = conn_flush rs (record b { rpos = b.rpos + length sent }) in
    if ltb b.rpos (length b.bytes)
    then (e, b', sent ++ more')
    else (FlushEnd.flushed, vc_buf_reset b, [])
conn_flush (write_zero ∷ rs) b = flush_end b FlushEnd.failed
conn_flush (write_again ∷ rs) b = flush_end b FlushEnd.would_block
conn_flush (write_failed ∷ rs) b = flush_end b FlushEnd.failed

-- what a `read` or an `SSL_read` returns
pub data ReadResult : Type 0 where
  got : List ℕ → ReadResult
  read_zero read_again read_failed : ReadResult

-- The first loop of `process_conn`, where a read returns at most what it is given room for; `none`
-- means that the connection is closed.
read_some : (ℕ → Bool) → List ReadResult → Option Buf → Option Buf
read_some mem rs none = none
read_some mem [] (some b) = some b
read_some mem (got bytes ∷ rs) (some b) =
    read_some mem rs
      (vc_buf_grow mem (record b { bytes = b.bytes ++ take (b.cap - length b.bytes) bytes }) 4096)
read_some mem (read_zero ∷ rs) (some b) = none
read_some mem (read_again ∷ rs) (some b) = some b
read_some mem (read_failed ∷ rs) (some b) = none

unfoldable pub read_available : (ℕ → Bool) → List ReadResult → Buf → Option Buf
unfolding read_some
read_available mem rs b = read_some mem rs (vc_buf_grow mem b 4096)

-- how the second loop of `process_conn` ends: with more bytes to come, at a protocol error, or at a
-- command that closes the connection
pub data ServeEnd : Type 0 where
  waiting broken closing : ServeEnd

unfoldable pub protocol_error : Host → Session → Session
protocol_error h s = reply_error h.mem err_code (codes "protocol error") s

-- one round, after the parse; `next` runs the loop on
unfoldable pub serve_parsed :
    Host
    → Session
    → Buf
    → (Session → Buf → Option (ServeEnd × Session × Buf))
    → Parsed
    → Option (ServeEnd × Session × Buf)
unfolding protocol_error
serve_parsed h s b next more = some (ServeEnd.waiting, s, b)
serve_parsed h s b next err = some (ServeEnd.broken, protocol_error h s, b)
serve_parsed h s b next (ok cmd consumed) =
    let s' = vc_dispatch h s cmd.args in
    let b' = vc_buf_consume b consumed in
    let rest = next s' b' in if s'.conn.closing then some (ServeEnd.closing, s', b') else rest

-- The second loop of `process_conn`, on rounds left; `none` if they run out.
unfoldable pub serve : Host → ℕ → Session → Buf → Option (ServeEnd × Session × Buf)
unfolding serve_parsed
serve h zero s b = if length b.bytes == 0 then some (ServeEnd.waiting, s, b) else none
serve h (suc n) s b =
    let rest = serve_parsed h s b (serve h n) (resp_parse_command h.mem b.bytes) in
    if length b.bytes == 0 then some (ServeEnd.waiting, s, b) else rest
