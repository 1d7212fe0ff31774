-- ===== src/Lib.antt =====
-- VoidCache: a shared-memory key-value cache with a RESP server.
--
-- The engine is src/voidcache.c with include/voidcache.h. A handle (`vc_cache_t`) has 64 shards, one
-- slab allocator and one write-ahead log. A call hashes its key, picks the shard by the top six bits
-- of the hash, appends to the log if it writes, and works on the table of that shard.
--
--   Slab    `slab_alloc`, `slab_free`, the size classes; free lists are lists of blocks
--   Entry   one slot of a table (`vc_entry_t`), its key and value, its expiry and its resources
--   Shard   `_shard_find`, `_shard_insert` (Robin Hood), `_shard_evict_one` (CLOCK), the lock and
--           the sequence counter. Shard.Lookup reads a table as a map from keys to contents; the
--           contents of a table are given by how many live entries of each kind it has
--           (`live_count`), so that the places of the entries do not matter
--   Hash    `xxh32`, `wyhash64`, `next_pow2_32`, `shard_idx`
--   Wal     the ring of records
--   Cache   `vc_create`, `vc_set`, `vc_get`, `vc_del`, `vc_flush`, `vc_stats`
--
-- The server speaks RESP (net/proto.c, net/proto.h), checks users and passwords, and the cluster
-- client picks a node by the hash slot of a key. None of these uses the engine.
--
--   Proto   `vc_buf_t` and its operations; Proto.Decimal `parse_int64` and printed numbers;
--           Proto.Parse `resp_parse_command`; Proto.Write the writers
--   Auth    net/auth.c: `vc_sha256`, the table of users, `vc_auth_verify`, permissions
--   Cluster net/cluster.c: `vc_crc16` and `vc_key_slot`
--
-- The handlers of net/commands.c stand over all of these: a handler checks the permission of the
-- connection, reads its arguments, calls the cache and writes a reply. `vc_dispatch` finds the handler
-- of a command in a table.
--
--   Commands.Guard       the session that a handler works on, `need_auth`, numbers read from texts
--   Commands.Reply       replies as values, and the calls of the writers that they stand for
--   Commands.Connection  PING, HELLO, AUTH, SELECT, QUIT, RESET, CLIENT
--   Commands.Strings     SET, GET, DEL, EXISTS, EXPIRE, PERSIST, TTL, PTTL
--   Commands.Values      TYPE, MGET, MSET, APPEND, RENAME
--   Commands.Counters    INCR, DECR, INCRBY, DECRBY
--   Commands.Keys        DBSIZE, KEYS, SCAN
--   Commands.Typed       VCSET, VCGET
--   Commands.Admin       FLUSHDB, INFO, CONFIG, VCINFO, CLUSTER
--   Commands.Compat      COMMAND, DEBUG, ACL, LATENCY, SLOWLOG, OBJECT, WAIT, XLEN, SRANDMEMBER
--   Commands.Table       `cmd_table`, `vc_dispatch`
--   Commands.Refused, Dispatch, ReadOnly, Users   permissions
--   Commands.SetGet, TypedGet, Encoding, Pages    what the commands do to values
--
-- net/server.c keeps a pool of connections. A worker reads what has arrived, parses and dispatches the
-- commands one after another, and sends the replies.
--
--   Server               `conn_flush` and the two loops of `process_conn`
--   Server.Conns         `conn_alloc`, `conn_close`, `process_conn`
--   Server.Events        `tls_do_handshake`, and what `worker_thread` does at an event, a new
--                        connection and a sweep
--   Server.Slots         the slots over time; Server.Slots.Steps the steps as a relation
--   Server.Flush, Pipeline   the order of the bytes and of the commands
--
-- The command-line client cli/vcli.c splits a line into words and sends them as one command.
--
--   Client  `tokenize` and `encode_command`; Client.Words the way of a line to the server
--
-- Numbers are natural numbers, with the wrap-around of a fixed-width word written out. Reads of
-- memory outside of a string have no value (`none`). The loops over a table run on a count of the
-- slots left, as the C loops do; the loops of the hash functions run on fuel, of which the length of
-- the data is enough; the growth of a buffer runs on one round for each byte asked for, and one more;
-- the loop over the commands runs on one round for each byte that has arrived.
--
-- Not modelled: interleavings of several threads (each call runs alone), failures of `mmap` in
-- `vc_create`, the release of a handle, the link that a free block holds in its first bytes (the
-- bytes of a block count only while it is in use), and everything that prints. The clocks and the
-- success of `malloc`, `realloc` and `mmap` are arguments, and so are the results of the calls of the
-- system and of the TLS library, what `strtod` reads and `%g` prints, and the bytes that an over-long
-- read finds behind a copy. Of the network layer, the file of users, session tokens, the connections
-- of the cluster client, and the start and the end of the server are not modelled; of the
-- command-line client, its options and its output are not. The descriptor of a
-- closed connection is left as it was: no code looks at it before the slot is used again.
mod Prelude
pub mod Slab
pub mod Entry
pub mod Shard
pub mod Hash
pub mod Wal
pub mod Cache
pub mod Proto
pub mod Auth
pub mod Cluster
pub mod Commands
pub mod Server
pub mod Client
