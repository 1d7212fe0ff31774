-- ===== src/Cache/Get.antt =====
-- `vc_get` of src/voidcache.c: the reads without the lock, and the part under the lock.
use void_cache.Prelude.{
  ℕ, zero, suc, List, [], Option, none, some, Bool, true, false, set, if◌then◌else◌,
}
use void_cache.Hash.{shard_idx}
use void_cache.Entry.{Entry, Payload, packed, slab_short, slab_long, mmap_long, entry_val}
use void_cache.Shard.{Shard, slot_at, shard_find, inc64}
use void_cache.Shard.Locks.{shard_lock, shard_unlock, seq_read_begin, seq_read_retry}
use void_cache.Cache.{Err, Cache, hash_of, shard_at}

unfoldable pub is_external : Payload → Bool
is_external (packed bs) = false
is_external (slab_short k b) = true
is_external (slab_long k b) = true
is_external (mmap_long k v) = true

-- how the reads without the lock end: at a miss, at a value outside of the entry, or undecided
pub data Fast : Type 0 where
  missed locked : Fast
  external : ℕ → Fast

-- `for (unsigned retry = 0; retry < VC_SEQLOCK_RETRY; retry++)`, on the rounds left
unfoldable pub fast_path : ℕ → ℕ → Shard → List ℕ → ℕ → Fast
fast_path zero now s key h = Fast.locked
fast_path (suc n) now s key h =
    let again = fast_path n now s key h in
    let seq = seq_read_begin s in
    elim (shard_find now s key h) [
      | none ↦ if seq_read_retry s seq then again else Fast.missed
      | some slot ↦
          if is_external (slot_at s.table slot).payload
          then (if seq_read_retry s seq then again else Fast.external slot)
          else Fast.locked
    ]

-- VC_SEQLOCK_RETRY
abbrev pub seqlock_retry : ℕ
seqlock_retry = 8

-- A shard after a read: the result is `none` for VC_ERR_NOTFND, or the slot of the entry.
abbrev pub used : Entry → Entry
used e = record e { clock_bit = 1 }

unfoldable pub read_hit : Shard → ℕ → Option ℕ × Shard
read_hit s slot = (
  some slot,
  record s { table = set s.table slot (used (slot_at s.table slot)); hits = inc64 s.hits },
)

unfoldable pub read_miss : Shard → Option ℕ × Shard
read_miss s = (none, record s { misses = inc64 s.misses })

-- the part of `vc_get` under the lock
unfoldable pub read_locked : Shard → Option ℕ → Option ℕ × Shard
unfolding read_hit read_miss
read_locked s none = read_miss (shard_unlock (shard_lock s))
read_locked s (some slot) = read_hit (shard_unlock (shard_lock s)) slot

unfoldable pub read_by : ℕ → Shard → List ℕ → ℕ → Fast → Option ℕ × Shard
unfolding read_hit read_miss read_locked
read_by now s key h Fast.missed = read_miss s
read_by now s key h (Fast.external slot) = read_hit s slot
read_by now s key h Fast.locked = read_locked s (shard_find now (shard_lock s) key h)

unfoldable pub shard_get : ℕ → Shard → List ℕ → ℕ → Option ℕ × Shard
unfolding fast_path is_external read_by
shard_get now s key h = read_by now s key h (fast_path seqlock_retry now s key h)

-- the bytes that `*out_val` and `*out_len` give the caller
unfoldable pub value_at : Cache → Shard → Option ℕ → Err × List ℕ
value_at c s none = (Err.notfnd, [])
value_at c s (some slot) = (Err.ok, entry_val c.slab (slot_at s.table slot))

unfoldable pub vc_get : ℕ → Cache → List ℕ → (Err × List ℕ) × Cache
unfolding value_at
vc_get now c key =
    let h = hash_of key in
    let si = shard_idx h in
    let (slot, s) = shard_get now (shard_at c si) key h in
    (value_at c s slot, record c { shards = set c.shards si s })
