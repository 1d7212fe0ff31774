-- ===== src/Cache/Tests.antt =====
-- The calls on a small cache.
use void_cache.Prelude.{
  ℕ, zero, suc, ◌≡◌, ◌<◌, ◌≢◌, ◌∙◌, arith, refl, sym, ap, subst, Bool, true, false, List, [], ◌∷◌,
  none, some, replicate, get_or, inr, leb, ◌*◌, ◌/◌, ◌&&◌, bytes_eq, ◌↔◌, ==_iff,
}
use void_cache.Hash.{num_shards, shard_idx}
use void_cache.Hash.Reads.{shard_idx-lt}
use void_cache.Slab.{Slab, slab_init}
use void_cache.Entry.{Entry, packed, zero_entry, entry_matches, entry_key, entry_val, entry_expired}
use void_cache.Shard.{Shard, shard_find, shard_insert, insert_loop, table_slot, next_slot}
use void_cache.Shard.Locks.{shard_lock, shard_unlock, seq_write_begin, seq_write_end}
use void_cache.Shard.Contents.{Content, content, live_count}
use void_cache.Shard.Lookup.{as_entry, lookup, copies, has_key, expired}
use void_cache.Shard.Counted.{IsCounted, zeroed-IsCounted, live_count-replicate}
use void_cache.Shard.Distinct.{stale}
use void_cache.Wal.{wal_init}
use void_cache.Cache.{
  Err, Cache, Env, build, new_shard, hash_of, shard_at, shard_set, make_room, drop_old, vc_set,
}
use void_cache.Cache.Get.{shard_get, vc_get}
use void_cache.Cache.Remove.{shard_del, vc_del, vc_flush}
use void_cache.Cache.Locked.{Kept}
use void_cache.Cache.Overwrite.{
  shard_set-IsCounted, shard_set-unlocked, shard_set-lookup, shard_set-other,
}
use void_cache.Cache.Stored.{shard_set-cells}
use void_cache.Cache.Reads.{after_read, shard_get_lem, Holds, vc_get_iff}
use void_cache.Cache.RoundTrip.{hash_of-lt, vc_set-get}
use void_cache.Cache.Deletion.{shard_del_lem, shard_del-other, del_result, vc_del-get}
use void_cache.Cache.Emptied.{IsEmptied, vc_flush-IsEmptied}

abbrev small_slab : Slab
small_slab = slab_init 4096

-- shards of four slots
abbrev pub small_cache : Cache
small_cache = record {
  shards = replicate num_shards (new_shard 4);
  slab = small_slab;
  wal = wal_init none;
  max_memory = 0;
  default_ttl_sec = 0;
  total_memory = 0;
}

abbrev calm : Env
calm = record { now = 1000; wall = 5; malloc_ok = true; mmap_ok = true }

abbrev key_k : List ℕ
key_k = b'k' ∷ []

abbrev val_v : List ℕ
val_v = b'v' ∷ b'w' ∷ []

get_or-replicate : (n : ℕ) (s d : Shard) (i : ℕ) → i < n → get_or (replicate n s) i d ≡ s
get_or-replicate zero s d i h = absurd (omega (arith, h))
get_or-replicate (suc n) s d zero h = refl
get_or-replicate (suc n) s d (suc i) h = get_or-replicate n s d i (omega (arith, h))

four-IsCounted : IsCounted (new_shard 4)
unfolding new_shard
four-IsCounted = zeroed-IsCounted (new_shard 4) (2, refl) (omega arith) refl refl

module _ (key : List ℕ) where
  fresh_shard : shard_at small_cache (shard_idx (hash_of key)) ≡ new_shard 4
  fresh_shard =
      get_or-replicate num_shards (new_shard 4) (new_shard 1) (shard_idx (hash_of key))
        (shard_idx-lt (hash_of key) (hash_of-lt key))

  pub fresh-IsCounted : IsCounted (shard_at small_cache (shard_idx (hash_of key)))
  fresh-IsCounted = subst IsCounted (sym fresh_shard) four-IsCounted

  four-none : (p : Content → Bool) → live_count p (new_shard 4).table ≡ 0
  unfolding new_shard
  four-none p = live_count-replicate p 4

  pub fresh-none :
      (p : Content → Bool) → live_count p (shard_at small_cache (shard_idx (hash_of key))).table ≡ 0
  fresh-none p = ap (λ s. live_count p s.table) fresh_shard ∙ four-none p

  pub fresh-room :
      (shard_at small_cache (shard_idx (hash_of key))).count
      < (shard_at small_cache (shard_idx (hash_of key))).cap
  unfolding new_shard
  fresh-room = rw fresh_shard (omega arith)

  fresh-unlocked : (shard_at small_cache (shard_idx (hash_of key))).wlock ≡ 0
  unfolding new_shard
  fresh-unlocked = rw fresh_shard refl

vc_set_succeeds : (vc_set calm small_cache key_k val_v 10).0 ≡ Err.ok
unfolding vc_set build
vc_set_succeeds = refl

vc_set-get_example :
    (vc_get 2000 (vc_set calm small_cache key_k val_v 10).1 key_k).0 ≡ (Err.ok, val_v)
vc_set-get_example =
    vc_set-get calm small_cache key_k val_v 10 (omega arith) refl (fresh-IsCounted key_k)
      (omega (arith, fresh-none key_k (has_key (hash_of key_k) key_k)))
      (fresh-none key_k (λ c. has_key (hash_of key_k) key_k c && expired 1000 c)) (fresh-room key_k)
      2000 vc_set_succeeds (inr (omega arith))

vc_del-get_example : (vc_get 2000 (vc_del calm small_cache key_k).1 key_k).0 ≡ (Err.notfnd, [])
vc_del-get_example =
    vc_del-get calm small_cache key_k refl (fresh-IsCounted key_k)
      (omega (arith, fresh-none key_k (has_key (hash_of key_k) key_k)))
      (fresh-none key_k (λ c. has_key (hash_of key_k) key_k c && expired 1000 c)) 2000

vc_flush-IsEmptied_example : IsEmptied (shard_at (vc_flush small_cache) 3)
vc_flush-IsEmptied_example = vc_flush-IsEmptied small_cache 3 (omega arith) four-IsCounted

-- an entry of the key `k`, and one that replaces it
abbrev entry_v : Entry
entry_v = record zero_entry {
  val_len = 2;
  key_len = 1;
  key_hash = 6;
  payload = packed (b'k' ∷ b'v' ∷ b'w' ∷ []);
}

abbrev entry_w : Entry
entry_w = record entry_v { val_len = 1; payload = packed (b'k' ∷ b'z' ∷ []) }

-- a shard that holds the first
abbrev filled : Shard
filled = (shard_set 1000 (new_shard 4) small_slab key_k 6 entry_v).0

filled-IsCounted : IsCounted filled
unfolding new_shard
filled-IsCounted =
    shard_set-IsCounted 1000 (new_shard 4) small_slab key_k 6 entry_v four-IsCounted (omega arith)

filled_facts :
    (copies filled key_k 6 ≡ 1)
    × (stale 1000 filled key_k 6 ≡ 0)
    × (filled.count ≡ 1)
    × (filled.cap ≡ 4)
    × (filled.wlock ≡ 0)
    × (copies filled (b'q' ∷ []) 6 ≡ 0)
unfolding insert_loop table_slot next_slot make_room drop_old shard_set shard_find new_shard
    shard_insert has_key expired entry_matches entry_key live_count entry_expired bytes_eq
    shard_lock shard_unlock seq_write_begin seq_write_end
filled_facts = (refl, refl, refl, refl, refl, refl)

shard_set-IsCounted_example : IsCounted (shard_set 1000 filled small_slab key_k 6 entry_w).0
shard_set-IsCounted_example =
    shard_set-IsCounted 1000 filled small_slab key_k 6 entry_w filled-IsCounted
      (omega (arith, filled_facts))

w_facts : (has_key 6 key_k (content entry_w) ≡ true) × (expired 5000 (content entry_w) ≡ false)
unfolding has_key expired entry_matches entry_key entry_expired bytes_eq
w_facts = (refl, refl)

shard_set-lookup_example :
    let s = (shard_set 1000 filled small_slab key_k 6 entry_w).0 in
    (lookup 5000 s key_k 6 ≡ some (content entry_w)) × (copies s key_k 6 ≡ 1)
shard_set-lookup_example =
    shard_set-lookup 1000 filled small_slab key_k 6 entry_w filled-IsCounted
      (omega (arith, filled_facts.0)) filled_facts.1 5000 (omega (arith, filled_facts)) w_facts.0
      w_facts.1

other_key : key_k ≢ b'q' ∷ []
other_key e = omega (arith, ap (λ l. get_or l 0 0) e)

shard_set-other_example :
    Kept
      (leb 85 (filled.count * 100 / filled.cap))
      (lookup 5000 filled (b'q' ∷ []) 6)
      (lookup 5000 (shard_set 1000 filled small_slab key_k 6 entry_w).0 (b'q' ∷ []) 6)
shard_set-other_example =
    shard_set-other 1000 filled small_slab key_k 6 entry_w filled-IsCounted
      (omega (arith, filled_facts.0)) filled_facts.1 5000 (b'q' ∷ []) 6
      (omega (arith, filled_facts)) w_facts.0 other_key (omega (arith, filled_facts))

shard_get_lem_example :
    shard_get 2000 filled key_k 6
    ≡ (shard_find 2000 filled key_k 6, after_read filled (shard_find 2000 filled key_k 6))
shard_get_lem_example = shard_get_lem 2000 filled key_k 6 (omega (arith, filled_facts))

shard_del_lem_example :
    let r = shard_del 1000 filled small_slab key_k 6 in
    IsCounted r.1
    × (copies r.1 key_k 6 ≡ 0)
    × (r.1.wlock ≡ 0)
    × (r.0 ≡ del_result (shard_find 1000 filled key_k 6))
shard_del_lem_example =
    shard_del_lem 1000 filled small_slab key_k 6 filled-IsCounted (omega (arith, filled_facts.0))
      filled_facts.1

shard_del-other_example :
    lookup 5000 (shard_del 1000 filled small_slab key_k 6).1 (b'q' ∷ []) 6
    ≡ lookup 5000 filled (b'q' ∷ []) 6
shard_del-other_example =
    shard_del-other 1000 filled small_slab key_k 6 filled-IsCounted (omega (arith, filled_facts.0))
      filled_facts.1 5000 (b'q' ∷ []) 6 other_key (omega (arith, filled_facts))

shard_set-cells_example :
    (shard_set 1000 filled small_slab key_k 6 entry_w).1.cells ≡ small_slab.cells
shard_set-cells_example = shard_set-cells 1000 filled small_slab key_k 6 entry_w

-- a cache whose shards all hold the key under its hash
abbrev entry_k : Entry
entry_k = record entry_v { key_hash = hash_of key_k }

abbrev holding : Shard
holding = (shard_set 1000 (new_shard 4) small_slab key_k (hash_of key_k) entry_k).0

abbrev filled_cache : Cache
filled_cache = record small_cache { shards = replicate num_shards holding }

holding-IsCounted : IsCounted holding
unfolding new_shard
holding-IsCounted =
    shard_set-IsCounted 1000 (new_shard 4) small_slab key_k (hash_of key_k) entry_k four-IsCounted
      (omega arith)

k_facts :
    (has_key (hash_of key_k) key_k (content entry_k) ≡ true)
    × (expired 2000 (content entry_k) ≡ false)
    × (entry_val small_slab (as_entry (content entry_k)) ≡ val_v)
unfolding has_key expired entry_matches entry_key entry_expired bytes_eq entry_val
k_facts = (rw ((==_iff (hash_of key_k) (hash_of key_k)).1 refl) refl, refl, refl)

holding_once : copies holding key_k (hash_of key_k) ≡ 1
unfolding new_shard
holding_once =
    (shard_set-lookup 1000 (new_shard 4) small_slab key_k (hash_of key_k) entry_k four-IsCounted
      (omega (arith, live_count-replicate (has_key (hash_of key_k) key_k) 4))
      (live_count-replicate (λ c. has_key (hash_of key_k) key_k c && expired 1000 c) 4) 2000
      (omega arith) k_facts.0 k_facts.1).1

filled_shard : shard_at filled_cache (shard_idx (hash_of key_k)) ≡ holding
filled_shard =
    get_or-replicate num_shards holding (new_shard 1) (shard_idx (hash_of key_k))
      (shard_idx-lt (hash_of key_k) (hash_of-lt key_k))

vc_get_iff_example :
    ((val : List ℕ)
      → ((vc_get 2000 filled_cache key_k).0 ≡ (Err.ok, val)) ↔ Holds 2000 filled_cache key_k val)
    × (((vc_get 2000 filled_cache key_k).0 ≡ (Err.notfnd, []))
        ↔ ((val : List ℕ) → ¬ Holds 2000 filled_cache key_k val))
vc_get_iff_example =
    vc_get_iff 2000 filled_cache key_k (subst IsCounted (sym filled_shard) holding-IsCounted)
      (rw filled_shard (omega (arith, holding_once)))
      (rw filled_shard (
        shard_set-unlocked 1000 (new_shard 4) small_slab key_k (hash_of key_k) entry_k
          four-IsCounted))
