-- ===== src/Cache.antt =====
-- The cache of src/voidcache.c: the handle `vc_cache_t`, `vc_create` and `vc_set`; the other
-- calls are in the modules below. Each call runs alone; pointer arguments are not NULL.
pub mod Get
pub mod Remove
pub mod Stats
pub mod Locked
pub mod Overwrite
pub mod Stored
pub mod Reads
pub mod RoundTrip
pub mod Contents
pub mod Deletion
pub mod Emptied
pub mod Tests
use void_cache.Prelude.{
  ℕ, zero, suc, ◌+◌, ◌-◌, ◌*◌, ◌/◌, ◌^◌, List, [], ◌∷◌, ◌++◌, Option, none, some, Bool, true, false,
  ltb, leb, ◌==◌, ◌||◌, length, get_or, set, replicate, if◌then◌else◌,
}
use void_cache.Hash.{word32, word64, wyhash64, shard_idx, next_pow2_32, num_shards}
use void_cache.Slab.{
  Slab, Block, slab_classes, slab_class_size, slab_init, slab_alloc, slab_free, store, arena_bytes,
}
use void_cache.Entry.{
  State, empty, live, Entry, Payload, packed, slab_short, slab_long, mmap_long, zero_entry,
  entry_val, entry_free_resources,
}
use void_cache.Shard.{
  Shard, slot_at, shard_find, shard_insert, shard_evict_one, shard_bury, buried, inc32, inc64,
}
use void_cache.Shard.Locks.{
  shard_lock, shard_unlock, seq_read_begin, seq_read_retry, seq_write_begin, seq_write_end,
}
use void_cache.Wal.{Wal, wal_init, wal_append, wal_set, wal_del}

-- `vc_err_t`
pub data Err : Type 0 where
  ok oom full notfnd expired wal_failed inval : Err

-- `vc_cache_t`
pub record Cache : Type 0 where
  pub shards : List Shard
  pub slab : Slab
  pub wal : Wal
  pub max_memory : ℕ
  pub default_ttl_sec : ℕ
  pub total_memory : ℕ

-- What a call takes from outside: the two clocks, and whether `malloc` and `mmap` succeed.
pub record Env : Type 0 where
  pub now : ℕ
  pub wall : ℕ
  pub malloc_ok : Bool
  pub mmap_ok : Bool

-- the shard of a zeroed handle, with its table
unfoldable pub new_shard : ℕ → Shard
new_shard cap = record {
  table = replicate cap zero_entry;
  cap = cap;
  count = 0;
  clock_hand = 0;
  seq = 0;
  wlock = 0;
  hits = 0;
  misses = 0;
  sets = 0;
  evictions = 0;
  expirations = 0;
}

-- `vc_create`, where every allocation and mapping succeeds; `file` is the mapped log, if any.
pub vc_create : ℕ → Option (ℕ → ℕ) → ℕ → Cache
unfolding new_shard
vc_create max_mem file shard_slots =
    let cap = next_pow2_32 (if shard_slots == 0 then 1024 else shard_slots) in
    record {
      shards = replicate num_shards (new_shard cap);
      slab = slab_init arena_bytes;
      wal = wal_init file;
      max_memory = max_mem;
      default_ttl_sec = 0;
      total_memory = 0;
    }

-- `wyhash64(key, key_len, 0)`, which always has a value
unfoldable pub or_zero : Option ℕ → ℕ
or_zero none = 0
or_zero (some h) = h

unfoldable pub hash_of : List ℕ → ℕ
unfolding or_zero
hash_of key = or_zero (wyhash64 key 0)

abbrev pub shard_at : Cache → ℕ → Shard
shard_at c si = get_or c.shards si (new_shard 1)

-- the metadata of the entry that `vc_set` builds; `ttl` is in seconds
unfoldable pub entry_for : ℕ → List ℕ → List ℕ → ℕ → Payload → Entry
entry_for now key val ttl payload = record {
  state = empty;
  val_len = if ltb 65535 (length val) then 65535 else length val;
  key_len = word32 (length key);
  key_hash = hash_of key;
  expire_ns = if ttl == 0 then 0 else word64 (now + ttl * 1_000_000_000);
  clock_bit = 0;
  probe_dist = 0;
  payload = payload;
}

-- where the key and the value are stored, with the slab and `total_memory`
pub data Build : Type 0 where
  built : Payload → Slab → ℕ → Build
  out_of_memory : Slab → Build

pub slab_path : Env → List ℕ → List ℕ → ℕ → ℕ × Option Block × Slab → Build
slab_path env key val memory (cls, none, sl) = out_of_memory sl
slab_path env key val memory (cls, some b, sl) =
    let sl' = store sl b val in
    let memory' = word64 (memory + length val) in
    if leb (length key) (32 - 8)
    then built (slab_short key b) sl' memory'
    else if env.malloc_ok
    then built (slab_long key b) sl' memory'
    else out_of_memory (slab_free sl' b cls)

unfoldable pub build : Env → Slab → ℕ → List ℕ → List ℕ → Build
unfolding slab_path
build env sl memory key val =
    if leb (length key + length val) 32
    then built (packed (key ++ val)) sl memory
    else if leb (length val) (slab_class_size (slab_classes - 1))
    then slab_path env key val memory (slab_alloc sl (length val))
    else if env.mmap_ok
    then (if env.malloc_ok
        then built (mmap_long key val) sl (word64 (memory + length val))
        else out_of_memory sl)
    else out_of_memory sl

-- `if (old_slot != UINT32_MAX)`
unfoldable pub drop_old : Shard → Slab → Option ℕ → Shard × Slab
drop_old s sl none = (s, sl)
drop_old s sl (some slot) = shard_bury s sl slot

-- `if (cnt * 100 / s->cap >= 85)`
unfoldable pub make_room : Shard → Slab → Shard × Slab
make_room s sl =
    if leb 85 (word32 (s.count * 100) / s.cap)
    then (let (_, s', sl') = shard_evict_one s sl in (s', sl'))
    else (s, sl)

-- the part of `vc_set` under the lock
unfoldable pub shard_set : ℕ → Shard → Slab → List ℕ → ℕ → Entry → Shard × Slab
unfolding drop_old make_room
shard_set now s sl key h ne =
    let s0 = seq_write_begin (shard_lock s) in
    let (s1, sl1) = drop_old s0 sl (shard_find now s0 key h) in
    let (s2, sl2) = make_room s1 sl1 in
    let s3 = shard_insert s2 ne in
    let s4 = record s3 { count = inc32 s3.count; sets = inc64 s3.sets } in
    (shard_unlock (seq_write_end s4), sl2)

pub finish_set : ℕ → Cache → List ℕ → List ℕ → ℕ → Build → Err × Cache
finish_set now c key val ttl (out_of_memory sl) = (Err.oom, record c { slab = sl })
finish_set now c key val ttl (built payload sl memory) =
    let h = hash_of key in
    let si = shard_idx h in
    let (s, sl') = shard_set now (shard_at c si) sl key h (entry_for now key val ttl payload) in
    (Err.ok, record c { shards = set c.shards si s; slab = sl'; total_memory = memory })

-- The key is below 4 GB, as the test on `key_len` demands.
unfoldable pub vc_set : Env → Cache → List ℕ → List ℕ → ℕ → Err × Cache
unfolding finish_set
vc_set env c key val ttl =
    if length key == 0 || (length val == 0 || ltb (2 ^ 32 - 1) (length key))
    then (Err.inval, c)
    else (let c' = record c { wal = wal_append c.wal wal_set key val ttl env.wall } in
        finish_set env.now c' key val ttl (build env c'.slab c'.total_memory key val))
