-- ===== src/Commands/Table.antt =====
-- The table of commands of net/commands.c, and `vc_dispatch`.
use void_cache.Prelude.{ℕ, ◌+◌, List, [], ◌∷◌, ◌++◌, Option, none, some, if◌then◌else◌, codes, ◌==◌}
use void_cache.Hash.{word64}
use void_cache.Auth.{acl_read, acl_write, acl_admin}
use void_cache.Proto.Parse.{Arg}
use void_cache.Commands.Guard.{Session, need_auth, is_word}
use void_cache.Commands.Reply.{Host, err, send}
use void_cache.Commands.Connection.{
  cmd_ping, cmd_hello, cmd_auth, cmd_select, cmd_quit, cmd_client, cmd_reset,
}
use void_cache.Commands.Strings.{
  cmd_get, cmd_exists, cmd_ttl, cmd_pttl, cmd_set, cmd_del, cmd_expire, cmd_persist,
}
use void_cache.Commands.Values.{cmd_mget, cmd_type, cmd_mset, cmd_rename, cmd_append}
use void_cache.Commands.Counters.{cmd_incr, cmd_decr, cmd_incrby2, cmd_decrby}
use void_cache.Commands.Keys.{cmd_dbsize, cmd_keys, cmd_scan}
use void_cache.Commands.Typed.{cmd_vcset, cmd_vcget}
use void_cache.Commands.Admin.{cmd_info, cmd_flushdb, cmd_config, cmd_vcinfo, cmd_cluster}
use void_cache.Commands.Compat.{
  cmd_debug, cmd_command, cmd_acl, cmd_latency, cmd_slowlog, cmd_object, cmd_wait, cmd_xlen,
  cmd_srandmember,
}

-- `vc_cmd_entry_t`
pub record CmdEntry : Type 0 where
  pub name : List ℕ
  pub fn : Host → Session → List Arg → Session
  pub acl_needed : ℕ

unfoldable pub cmd_table : List CmdEntry
cmd_table =
    record { name = codes "PING"; fn = λ h. cmd_ping h.mem; acl_needed = 0 }
    ∷ record { name = codes "HELLO"; fn = cmd_hello; acl_needed = 0 }
    ∷ record { name = codes "AUTH"; fn = λ h. cmd_auth h.mem; acl_needed = 0 }
    ∷ record { name = codes "SELECT"; fn = λ h. cmd_select h.mem; acl_needed = 0 }
    ∷ record { name = codes "QUIT"; fn = λ h. cmd_quit h.mem; acl_needed = 0 }
    ∷ record { name = codes "CLIENT"; fn = cmd_client; acl_needed = 0 }
    ∷ record { name = codes "GET"; fn = λ h. cmd_get h.mem h.env; acl_needed = acl_read }
    ∷ record { name = codes "MGET"; fn = cmd_mget; acl_needed = acl_read }
    ∷ record { name = codes "EXISTS"; fn = λ h. cmd_exists h.mem h.env; acl_needed = acl_read }
    ∷ record { name = codes "TTL"; fn = λ h. cmd_ttl h.mem h.env; acl_needed = acl_read }
    ∷ record { name = codes "PTTL"; fn = λ h. cmd_pttl h.mem h.env; acl_needed = acl_read }
    ∷ record { name = codes "TYPE"; fn = cmd_type; acl_needed = acl_read }
    ∷ record { name = codes "DBSIZE"; fn = cmd_dbsize; acl_needed = acl_read }
    ∷ record { name = codes "KEYS"; fn = cmd_keys; acl_needed = acl_read }
    ∷ record { name = codes "SCAN"; fn = cmd_scan; acl_needed = acl_read }
    ∷ record { name = codes "INFO"; fn = cmd_info; acl_needed = acl_read }
    ∷ record { name = codes "SET"; fn = λ h. cmd_set h.mem h.env; acl_needed = acl_write }
    ∷ record { name = codes "MSET"; fn = cmd_mset; acl_needed = acl_write }
    ∷ record { name = codes "DEL"; fn = λ h. cmd_del h.mem h.env; acl_needed = acl_write }
    ∷ record { name = codes "EXPIRE"; fn = λ h. cmd_expire h.mem h.env; acl_needed = acl_write }
    ∷ record { name = codes "PERSIST"; fn = λ h. cmd_persist h.mem h.env; acl_needed = acl_write }
    ∷ record { name = codes "RENAME"; fn = cmd_rename; acl_needed = acl_write }
    ∷ record { name = codes "APPEND"; fn = cmd_append; acl_needed = acl_write }
    ∷ record { name = codes "INCR"; fn = cmd_incr; acl_needed = acl_write }
    ∷ record { name = codes "DECR"; fn = cmd_decr; acl_needed = acl_write }
    ∷ record { name = codes "INCRBY"; fn = cmd_incrby2; acl_needed = acl_write }
    ∷ record { name = codes "DECRBY"; fn = cmd_decrby; acl_needed = acl_write }
    ∷ record { name = codes "FLUSHDB"; fn = cmd_flushdb; acl_needed = acl_admin }
    ∷ record { name = codes "FLUSHALL"; fn = cmd_flushdb; acl_needed = acl_admin }
    ∷ record { name = codes "CONFIG"; fn = cmd_config; acl_needed = acl_admin }
    ∷ record { name = codes "DEBUG"; fn = cmd_debug; acl_needed = acl_admin }
    ∷ record { name = codes "COMMAND"; fn = cmd_command; acl_needed = 0 }
    ∷ record { name = codes "CLUSTER"; fn = cmd_cluster; acl_needed = 0 }
    ∷ record { name = codes "VCSET"; fn = cmd_vcset; acl_needed = acl_write }
    ∷ record { name = codes "VCGET"; fn = cmd_vcget; acl_needed = acl_read }
    ∷ record { name = codes "VCINFO"; fn = cmd_vcinfo; acl_needed = acl_read }
    ∷ record { name = codes "RESET"; fn = λ h. cmd_reset h.mem; acl_needed = 0 }
    ∷ record { name = codes "ACL"; fn = cmd_acl; acl_needed = 0 }
    ∷ record { name = codes "LATENCY"; fn = cmd_latency; acl_needed = acl_admin }
    ∷ record { name = codes "SLOWLOG"; fn = cmd_slowlog; acl_needed = acl_admin }
    ∷ record { name = codes "OBJECT"; fn = cmd_object; acl_needed = acl_read }
    ∷ record { name = codes "WAIT"; fn = cmd_wait; acl_needed = 0 }
    ∷ record { name = codes "XLEN"; fn = cmd_xlen; acl_needed = acl_read }
    ∷ record { name = codes "SRANDMEMBER"; fn = cmd_srandmember; acl_needed = acl_read }
    ∷ []

-- a handler that has run
unfoldable pub counted : Session → Session
counted s = record s { total_commands = word64 (s.total_commands + 1) }

unfoldable pub checked : Option Session → Session → Session
unfolding counted
checked none s = counted s
checked (some refused) s = refused

unfoldable pub run_entry : Host → CmdEntry → Session → List Arg → Session
unfolding counted checked
run_entry h e s args =
    if e.acl_needed == 0
    then counted (e.fn h s args)
    else checked (need_auth h.mem s e.acl_needed) (e.fn h s args)

-- the loop over the table; the text has a dash of three bytes
unfoldable pub dispatch_from : Host → List CmdEntry → List ℕ → Session → List Arg → Session
unfolding run_entry
dispatch_from h [] name s args =
    send h
      (err (
        codes "unknown command "
        ++ (0xE2 ∷ 0x80 ∷ 0x94 ∷ codes " see https://voidcache.io/commands")))
      s
dispatch_from h (e ∷ es) name s args =
    if is_word name e.name then run_entry h e s args else dispatch_from h es name s args

unfoldable pub vc_dispatch : Host → Session → List Arg → Session
unfolding dispatch_from
vc_dispatch h s [] = s
vc_dispatch h s (name ∷ args) = dispatch_from h cmd_table name.bytes s (name ∷ args)
