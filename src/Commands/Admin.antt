-- ===== src/Commands/Admin.antt =====
-- The handlers of net/commands.c about the whole server: FLUSHDB, INFO, CONFIG, VCINFO, CLUSTER. All
-- texts are shorter than the arrays that they are printed into, but for the line of CLUSTER NODES.
use void_cache.Prelude.{
  ℕ, ◌+◌, ◌-◌, ◌*◌, List, [], ◌∷◌, ◌++◌, Option, none, some, Bool, if◌then◌else◌, codes, ◌==◌, ◌&&◌,
  ◌||◌, bytes_eq, length, take, map,
}
use void_cache.Auth.{acl_read, acl_admin}
use void_cache.Cache.Stats.{Stats, vc_stats}
use void_cache.Cache.Remove.{vc_flush}
use void_cache.Proto.Decimal.{pos, decimal}
use void_cache.Proto.Parse.{Arg, until_nul, upper}
use void_cache.Commands.Guard.{Config, Session, need_auth, guarded, wrong_args_text, is_word}
use void_cache.Commands.Connection.{server_version, printed}
use void_cache.Commands.Reply.{Host, Reply, err, send, choose}
use void_cache.Commands.Values.{with_cache}
use void_cache.Commands.Compat.{with_sub}

concat : List (List ℕ) → List ℕ
concat [] = []
concat (t ∷ ts) = t ++ concat ts

unfoldable pub cmd_flushdb : Host → Session → List Arg → Session
cmd_flushdb h s args =
    guarded (need_auth h.mem s acl_admin) (send h (Reply.ok ∷ []) (with_cache s (vc_flush s.cache)))

info_text : Session → Stats → List ℕ → List ℕ
unfolding concat
info_text s st mode = concat (
    codes "# Server\r\nredis_version:"
    ∷ server_version
    ∷ codes "\r\nredis_mode:"
    ∷ mode
    ∷ codes "\r\nserver:voidcache\r\nversion:"
    ∷ server_version
    ∷ codes "\r\nnode_id:"
    ∷ s.node_id
    ∷ codes "\r\nmode:"
    ∷ mode
    ∷ codes "\r\nos:Linux\r\narch_bits:64\r\n\r\n# Clients\r\nconnected_clients:"
    ∷ decimal s.total_conns
    ∷ codes "\r\ntotal_connections_received:"
    ∷ decimal s.total_conns
    ∷ codes "\r\n\r\n# Stats\r\ntotal_commands_processed:"
    ∷ decimal s.total_commands
    ∷ codes "\r\nkeyspace_hits:"
    ∷ decimal st.hits
    ∷ codes "\r\nkeyspace_misses:"
    ∷ decimal st.misses
    ∷ codes "\r\nevicted_keys:"
    ∷ decimal st.evictions
    ∷ codes "\r\nexpired_keys:"
    ∷ decimal st.expirations
    ∷ codes "\r\n\r\n# Keyspace\r\ndb0:keys="
    ∷ decimal st.total_keys
    ∷ codes "\r\n\r\n# Replication\r\nrole:master\r\nconnected_slaves:0\r\n"
    ∷ codes "master_failover_state:no-failover\r\n"
    ∷ codes "master_replid:0000000000000000000000000000000000000000\r\n"
    ∷ codes "master_repl_offset:0\r\n\r\n# Persistence\r\nloading:0\r\n"
    ∷ codes "rdb_changes_since_last_save:0\r\nrdb_last_bgsave_status:ok\r\n"
    ∷ codes "aof_enabled:0\r\n\r\n# CPU\r\nused_cpu_sys:0\r\nused_cpu_user:0\r\n"
    ∷ codes "\r\n# Memory\r\nused_memory:"
    ∷ decimal st.memory_bytes
    ∷ codes "\r\nmaxmemory:"
    ∷ decimal s.cache.max_memory
    ∷ codes "\r\n"
    ∷ [])

unfoldable pub cmd_info : Host → Session → List Arg → Session
unfolding info_text vc_stats
cmd_info h s args = guarded (need_auth h.mem s acl_read) (
    send h
      (Reply.bulk (
          info_text s (vc_stats s.cache)
            (if s.cfg.cluster_enabled then codes "cluster" else codes "standalone"))
        ∷ [])
      s)

-- `CFGMATCH(k)`; an empty pattern, for which it reads in front of the text, matches nothing here.
last_byte : List ℕ → ℕ
last_byte [] = 0
last_byte (c ∷ []) = c
last_byte (c ∷ d ∷ cs) = last_byte (d ∷ cs)

unfoldable pub cfg_match : List ℕ → List ℕ → Bool
unfolding last_byte
cfg_match pat k =
    let p = until_nul pat in
    let n = length p - 1 in
    bytes_eq p (codes "*")
    || (bytes_eq (map upper p) (map upper k)
        || (last_byte p == b'*' && bytes_eq (map upper (take n p)) (map upper (take n k))))

config_entries : ℕ → List (List ℕ × List ℕ)
config_entries max_memory =
    (codes "hz", codes "10")
    ∷ (codes "maxmemory", decimal max_memory)
    ∷ (codes "maxmemory-policy", codes "allkeys-lru")
    ∷ (codes "save", [])
    ∷ (codes "appendonly", codes "no")
    ∷ (codes "list-max-ziplist-size", codes "-2")
    ∷ (codes "list-compress-depth", codes "0")
    ∷ (codes "activerehashing", codes "yes")
    ∷ (codes "lazyfree-lazy-eviction", codes "no")
    ∷ (codes "latency-tracking", codes "yes")
    ∷ (codes "latency-tracking-info-percentiles", codes "50 99 99.9")
    ∷ (codes "proto-max-bulk-len", codes "536870912")
    ∷ (codes "activedefrag", codes "no")
    ∷ (codes "repl-backlog-size", codes "1048576")
    ∷ (codes "bind-source-addr", [])
    ∷ (codes "socket-mark-id", codes "0")
    ∷ []

-- the entries that match, with their replies
matching : List ℕ → List (List ℕ × List ℕ) → List (List ℕ × List ℕ)
unfolding cfg_match
matching pat [] = []
matching pat ((k, v) ∷ es) = let ms = matching pat es in if cfg_match pat k then (k, v) ∷ ms else ms

pair_replies : List (List ℕ × List ℕ) → List Reply
pair_replies [] = []
pair_replies ((k, v) ∷ es) = Reply.bulk k ∷ Reply.bulk v ∷ pair_replies es

config_get : ℕ → List ℕ → List Reply
unfolding matching pair_replies config_entries
config_get max_memory pat =
    let es = matching pat (config_entries max_memory) in
    Reply.array (length es * 2) ∷ pair_replies es

-- the subcommands of CONFIG but GET
config_other : List ℕ → List Reply
config_other sub =
    choose sub ((codes "SET", Reply.ok ∷ []) ∷ (codes "RESETSTAT", Reply.ok ∷ []) ∷ [])
      (err (codes "unknown CONFIG subcommand"))

unfoldable pub cmd_config : Host → Session → List Arg → Session
unfolding config_get config_other
cmd_config h s [] = send h (err wrong_args_text) s
cmd_config h s (name ∷ []) = send h (err wrong_args_text) s
cmd_config h s (name ∷ sub ∷ []) = send h (config_other sub.bytes) s
cmd_config h s (name ∷ sub ∷ pat ∷ others) =
    send h
      (if is_word sub.bytes (codes "GET")
        then config_get s.cache.max_memory pat.bytes
        else config_other sub.bytes)
      s

vcinfo_text : Session → Stats → List ℕ
unfolding concat
vcinfo_text s st = concat (
    codes "{\"server\":\"voidcache\",\"version\":\""
    ∷ server_version
    ∷ codes "\",\"node_id\":\""
    ∷ s.node_id
    ∷ codes "\",\"shards\":64,\"max_memory\":"
    ∷ decimal s.cache.max_memory
    ∷ codes ",\"keys\":"
    ∷ decimal st.total_keys
    ∷ codes ",\"hits\":"
    ∷ decimal st.hits
    ∷ codes ",\"misses\":"
    ∷ decimal st.misses
    ∷ codes ",\"evictions\":"
    ∷ decimal st.evictions
    ∷ codes ",\"memory_bytes\":"
    ∷ decimal st.memory_bytes
    ∷ codes "}"
    ∷ [])

unfoldable pub cmd_vcinfo : Host → Session → List Arg → Session
unfolding vcinfo_text vc_stats
cmd_vcinfo h s args =
    guarded (need_auth h.mem s acl_read)
      (send h (Reply.typed b'j' (vcinfo_text s (vc_stats s.cache)) ∷ []) s)

announced : Option (List ℕ) → List ℕ
announced none = codes "127.0.0.1"
announced (some addr) = addr

cluster_info : Config → List ℕ
cluster_info cfg =
    codes "cluster_enabled:"
    ++ ((if cfg.cluster_enabled then b'1' else b'0')
          ∷ codes "\r\ncluster_state:ok\r\ncluster_slots_assigned:16384\r\n"
        ++ codes "cluster_slots_ok:16384\r\ncluster_known_nodes:1\r\ncluster_size:1\r\n")

cluster_line : Session → List ℕ
unfolding concat announced
cluster_line s =
    let port =
      if s.cfg.cluster_announce_port == 0 then s.cfg.port else s.cfg.cluster_announce_port in
    printed 255 (
      concat (
        s.node_id
        ∷ codes " "
        ∷ announced s.cfg.cluster_announce_addr
        ∷ codes ":"
        ∷ decimal port
        ∷ codes "@"
        ∷ decimal (port + 10000)
        ∷ codes " myself,master - 0 0 1 connected 0-16383\n"
        ∷ []))

cluster_slots : Config → List Reply
unfolding announced
cluster_slots cfg =
    Reply.array 1
    ∷ Reply.array 3
    ∷ Reply.integer (pos 0)
    ∷ Reply.integer (pos 16383)
    ∷ Reply.array 2
    ∷ Reply.bulk (announced cfg.cluster_announce_addr)
    ∷ Reply.integer (pos cfg.port)
    ∷ []

cluster_replies : Session → List ℕ → List Reply
unfolding cluster_info cluster_line cluster_slots
cluster_replies s sub =
    choose sub
      ((codes "INFO", Reply.bulk (cluster_info s.cfg) ∷ [])
        ∷ (codes "MYID", Reply.bulk s.node_id ∷ [])
        ∷ (codes "NODES", Reply.bulk (cluster_line s) ∷ [])
        ∷ (codes "SLOTS", cluster_slots s.cfg)
        ∷ [])
      (err (codes "unknown CLUSTER subcommand"))

unfoldable pub cmd_cluster : Host → Session → List Arg → Session
unfolding with_sub cluster_replies
cmd_cluster h s args = with_sub h s args (cluster_replies s)
