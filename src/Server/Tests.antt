-- ===== src/Server/Tests.antt =====
-- The server on a pool of two connections.
use void_cache.Prelude.{
  ℕ, ◌≡◌, ◌++◌, refl, arith, List, [], ◌∷◌, some, true, false, codes, length, replicate,
}
use void_cache.Proto.{Buf}
use void_cache.Commands.Guard.{Session}
use void_cache.Commands.Tests.{host, stranger}
use void_cache.Server.{wrote, write_again, got, read_again, ServeEnd, conn_flush, serve}
use void_cache.Server.Flush.{Sends, conn_flush-Sends}
use void_cache.Server.Pipeline.{pipeline, AllShort, dispatch_all, serve_total, serve-dispatch_all}
use void_cache.Server.Conns.{Server, free_slot}
use void_cache.Server.Events.{Event, complete}

abbrev unsent_reply : Buf
unsent_reply = record { bytes = codes "+PONG"; cap = 64; rpos = 0 }

conn_flush-Sends_example : Sends unsent_reply (conn_flush (wrote 3 ∷ write_again ∷ []) unsent_reply)
conn_flush-Sends_example = conn_flush-Sends (wrote 3 ∷ write_again ∷ []) unsent_reply

-- PING and QUIT in one read
abbrev two_commands : List (List (List ℕ))
two_commands = (codes "PING" ∷ []) ∷ (codes "QUIT" ∷ []) ∷ []

abbrev received : Buf
received = record { bytes = pipeline two_commands; cap = 4096; rpos = 0 }

two_short : AllShort two_commands
unfolding AllShort
two_short = (omega arith, (omega arith, tt), (omega arith, (omega arith, tt), tt))

serve_total_example :
    (r : ServeEnd × Session × Buf) × (serve host (length received.bytes) stranger received ≡ some r)
serve_total_example = serve_total host (length received.bytes) stranger received (omega arith)

serve-dispatch_all_example :
    (b' : Buf) × (serve host (length received.bytes) stranger received
      ≡ some (
        (dispatch_all host stranger two_commands).0,
        (dispatch_all host stranger two_commands).1,
        b',
      ))
serve-dispatch_all_example =
    serve-dispatch_all host (λ n. refl) two_commands (length received.bytes) stranger received refl
      two_short (omega arith)

abbrev idle_server : Server
idle_server = record {
  cfg = stranger.cfg;
  auth = stranger.auth;
  cache = stranger.cache;
  tls = false;
  total_conns = 0;
  total_commands = 0;
  node_id = [];
  conns = replicate 2 free_slot;
}

-- a client sends PING
abbrev ping : Event
ping = record {
  hup = false;
  out = false;
  readable = true;
  handshake = complete;
  resumed = [];
  reads = got (codes "PING" ++ (13 ∷ 10 ∷ [])) ∷ read_again ∷ [];
  writes = wrote 7 ∷ [];
}
