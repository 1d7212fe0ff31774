-- ===== src/Commands/Tests.antt =====
-- Commands on a small session.
use void_cache.Prelude.{
  ℕ, ◌≡◌, ◌+◌, ◌∙◌, refl, ap, inl, arith, List, [], ◌∷◌, none, some, Bool, true, false, codes,
  length, take, drop, ◌^◌, ◌&&◌,
}
use void_cache.Auth.{User, acl_read, acl_write, acl_admin, vc_acl_check}
use void_cache.Entry.{live, zero_entry}
use void_cache.Shard.{Shard}
use void_cache.Shard.Lookup.{has_key, expired}
use void_cache.Cache.{Err, Env, vc_create, hash_of, build, vc_set}
use void_cache.Cache.Tests.{small_cache, fresh-IsCounted, fresh-none, fresh-room}
use void_cache.Proto.{vc_buf_new}
use void_cache.Proto.Parse.{Arg}
use void_cache.Proto.Write.{resp_write_ok, resp_write_bulk}
use void_cache.Commands.Guard.{Session, need_auth, refuse}
use void_cache.Commands.Reply.{Host, Reply, send}
use void_cache.Commands.Keys.{
  cmd_keys, key_replies, is_live, max_keys, scan_slots, scan_next, scan_shards, scan_page,
}
use void_cache.Commands.Typed.{VcType, value_map}
use void_cache.Commands.Table.{vc_dispatch}
use void_cache.Commands.Refused.{AuthKeeps}
use void_cache.Commands.Dispatch.Table.{vc_dispatch-AuthKeeps}
use void_cache.Commands.ReadOnly.{Reads}
use void_cache.Commands.ReadOnly.Table.{vc_dispatch-Reads}
use void_cache.Commands.SetGet.{need_auth_same, set_command, get_command, vc_dispatch-set-get}
use void_cache.Commands.Encoding.{shown, stored_form}
use void_cache.Commands.TypedGet.{vcset_command, vcget_command, vc_dispatch-vcset-vcget}
use void_cache.Commands.Counters.{typed_int, cmd_incr, cmd_decr, cmd_incrby2, cmd_decrby}
use void_cache.Commands.Counters.Amount.{Counts, counters_add}
use void_cache.Commands.Guard.{strtoll_value}
use void_cache.Commands.Values.{with_cache}
use void_cache.Proto.Decimal.{pos}
use void_cache.Cache.Get.{vc_get}
use void_cache.Cache.RoundTrip.{vc_set-get}
use void_cache.Proto.Write.{le_bytes}
use void_cache.Commands.Pages.{all_keys, live_keys, cmd_keys-take}
use void_cache.Commands.Pages.Scan.{AllWhole}
use void_cache.Commands.Pages.Scan.Cursor.{Leaves, rest_from, scan_page_lem}
use void_cache.Commands.Pages.Scan.Early.{scan_shards_ends_early}

abbrev pub mem : ℕ → Bool
mem n = true

abbrev pub env : Env
env = record { now = 1000; wall = 5; malloc_ok = true; mmap_ok = true }

abbrev pub host : Host
host = record { mem = mem; env = env; strtod = λ s. 0; g_text = λ d. codes "0"; beyond = λ n. [] }

-- a user that may read alone
abbrev reader : User
reader = record { username = b'r' ∷ []; pw_sha256 = []; acl = 1; enabled = true }

abbrev pub stranger : Session
stranger = record {
  auth = record { users = reader ∷ []; require_auth = true };
  cache = vc_create 0 none 4;
  conn = record {
    fd = 7;
    user = none;
    resp3 = false;
    db_idx = 0;
    closing = false;
    wbuf = vc_buf_new 64;
    peer_addr = codes "127.0.0.1";
    peer_port = 50000;
  };
  cfg = record {
    port = 6379;
    cluster_enabled = false;
    cluster_announce_addr = none;
    cluster_announce_port = 0;
  };
  total_conns = 1;
  total_commands = 0;
  node_id = codes "0123456789abcdef";
}

abbrev reading : Session
reading = record stranger { conn = record stranger.conn { user = some reader } }

abbrev args : List Arg
args = record { bytes = b'S' ∷ []; argl = 1 } ∷ record { bytes = b'k' ∷ []; argl = 1 } ∷ []

-- a user that may read and write
abbrev writer : User
writer = record reader { acl = 3 }

abbrev writing : Session
writing = record stranger { conn = record stranger.conn { user = some writer } }

vc_dispatch-AuthKeeps_example : AuthKeeps stranger (vc_dispatch host stranger args)
vc_dispatch-AuthKeeps_example = vc_dispatch-AuthKeeps host stranger args refl refl

may_not :
    (vc_acl_check (some reader) acl_write ≡ false) × (vc_acl_check (some reader) acl_admin ≡ false)
unfolding vc_acl_check
may_not = (refl, refl)

vc_dispatch-Reads_example : Reads reading (vc_dispatch host reading args)
vc_dispatch-Reads_example = vc_dispatch-Reads host reading args reader refl refl may_not.0 may_not.1

-- a connection that may read and write, over shards of four slots
abbrev on_small : Session
on_small = record writing { cache = small_cache }

abbrev key_k : List ℕ
key_k = codes "k"

abbrev val_v : List ℕ
val_v = codes "vw"

may : (need_auth mem on_small acl_write ≡ none) × (need_auth mem on_small acl_read ≡ none)
unfolding need_auth refuse vc_acl_check
may = (refl, refl)

stored_k : (vc_set env small_cache key_k val_v 0).0 ≡ Err.ok
unfolding vc_set build
stored_k = refl

vc_dispatch-set-get_example :
    (vc_dispatch host
      (vc_dispatch host on_small (set_command key_k val_v))
      (get_command key_k)).conn.wbuf
    ≡ (resp_write_bulk mem val_v (resp_write_ok mem on_small.conn.wbuf).1).1
vc_dispatch-set-get_example =
    vc_dispatch-set-get host on_small key_k val_v (omega arith) (omega arith) refl
      (fresh-IsCounted key_k) (omega (arith, fresh-none key_k (has_key (hash_of key_k) key_k)))
      (fresh-none key_k (λ c. has_key (hash_of key_k) key_k c && expired 1000 c)) (fresh-room key_k)
      may.0 may.1 stored_k

stored_form_k :
    (vc_set env small_cache key_k (stored_form host VcType.int (codes "42")) 0).0 ≡ Err.ok
unfolding vc_set build le_bytes
stored_form_k = refl

vc_dispatch-vcset-vcget_example :
    (vc_dispatch host
      (vc_dispatch host on_small (vcset_command key_k VcType.int (codes "42")))
      (vcget_command key_k)).conn.wbuf
    ≡ (send host
        (value_map (shown host VcType.int (codes "42")))
        (send host (Reply.ok ∷ []) on_small)).conn.wbuf
vc_dispatch-vcset-vcget_example =
    vc_dispatch-vcset-vcget host (λ n. refl) on_small key_k VcType.int (codes "42") (omega arith)
      refl (fresh-IsCounted key_k) (omega (arith, fresh-none key_k (has_key (hash_of key_k) key_k)))
      (fresh-none key_k (λ c. has_key (hash_of key_k) key_k c && expired 1000 c)) (fresh-room key_k)
      (omega arith) (omega arith) refl may.0 may.1 stored_form_k

-- the session behind a set of the integer 37
abbrev counted : Session
counted = with_cache on_small (vc_set env small_cache key_k (typed_int 37) 0).1

stored_int : (vc_set env small_cache key_k (typed_int 37) 0).0 ≡ Err.ok
unfolding vc_set build typed_int le_bytes
stored_int = refl

typed_int-length : take 65535 (typed_int 37) ≡ typed_int 37
unfolding typed_int le_bytes
typed_int-length = refl

holds_int : (vc_get 1000 counted.cache key_k).0 ≡ (Err.ok, typed_int 37)
holds_int =
    vc_set-get env small_cache key_k (typed_int 37) 0 (omega arith) refl (fresh-IsCounted key_k)
      (omega (arith, fresh-none key_k (has_key (hash_of key_k) key_k)))
      (fresh-none key_k (λ c. has_key (hash_of key_k) key_k c && expired 1000 c)) (fresh-room key_k)
      1000 stored_int (inl refl)
    ∙ ap (λ w. (Err.ok, w)) typed_int-length

five : strtoll_value (codes "5") ≡ pos 5
unfolding strtoll_value void_cache.Proto.Decimal.skip_space
five = refl

abbrev star : Arg
star = record { bytes = codes "*"; argl = 1 }

abbrev key_arg : Arg
key_arg = record { bytes = key_k; argl = 1 }

abbrev amount_arg : Arg
amount_arg = record { bytes = codes "5"; argl = 1 }

counters_add_example :
    Counts host counted key_k 42 (cmd_incrby2 host counted (star ∷ key_arg ∷ amount_arg ∷ []))
    × Counts host counted key_k 42 (cmd_decrby host counted (star ∷ key_arg ∷ amount_arg ∷ []))
    × Counts host counted key_k 42 (cmd_incr host counted (star ∷ key_arg ∷ amount_arg ∷ []))
    × Counts host counted key_k 42 (cmd_decr host counted (star ∷ key_arg ∷ amount_arg ∷ []))
counters_add_example =
    counters_add host counted star key_arg amount_arg 37 5
      (need_auth_same mem on_small counted acl_write refl refl may.0) holds_int five (omega arith)

reader_may_read : need_auth mem reading acl_read ≡ none
unfolding need_auth refuse vc_acl_check
reader_may_read = refl

cmd_keys-take_example :
    cmd_keys host reading (star ∷ star ∷ [])
    ≡ send host (key_replies host (take max_keys (all_keys reading.cache.shards))) reading
cmd_keys-take_example = cmd_keys-take host reading star star reader_may_read refl

-- a shard of one slot, with a live entry in it
abbrev full_shard : Shard
full_shard = record {
  table = record zero_entry { state = live } ∷ [];
  cap = 1;
  count = 1;
  clock_hand = 0;
  seq = 0;
  wlock = 0;
  hits = 0;
  misses = 0;
  sets = 1;
  evictions = 0;
  expirations = 0;
}

-- two shards, the second with two slots, both live
abbrev paged : List Shard
paged =
    full_shard
    ∷ record full_shard {
      table = record zero_entry { state = live } ∷ record zero_entry { state = live } ∷ [];
      cap = 2;
      count = 2;
    }
    ∷ []

paged-AllWhole : AllWhole paged
unfolding AllWhole
paged-AllWhole = (refl, omega arith, (refl, omega arith, tt))

-- The page ends inside of the second table.
scan_page_lem_example :
    ((scan_page paged (2 ^ 20) 1).0 ≡ take 1 (rest_from paged (2 ^ 20)))
    × Leaves paged (drop 1 (rest_from paged (2 ^ 20))) (scan_page paged (2 ^ 20) 1).1
scan_page_lem_example = scan_page_lem paged (2 ^ 20) 1 (omega arith) paged-AllWhole (omega arith)

-- the cursor that it gives
second_slot : (scan_page paged (2 ^ 20) 1).1 ≡ 2 ^ 20 + 1
unfolding scan_page scan_shards scan_next scan_slots is_live
second_slot = refl

entry_is_live : is_live live ≡ true
unfolding is_live
entry_is_live = refl

scan_shards_ends_early_example :
    scan_shards
      (full_shard ∷ full_shard ∷ [])
      62
      0
      (length (live_keys (record zero_entry { state = live } ∷ [])))
    ≡ (live_keys (record zero_entry { state = live } ∷ []), 0)
scan_shards_ends_early_example =
    scan_shards_ends_early full_shard (full_shard ∷ []) 62 0 [] (record zero_entry { state = live })
      refl refl entry_is_live
