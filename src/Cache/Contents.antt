-- ===== src/Cache/Contents.antt =====
-- What `vc_get` of src/voidcache.c leaves alone: everything but the clock bits, the statistics and
-- the lock of the shard that it reads.
use void_cache.Prelude.{
  ℕ, zero, suc, ◌≡◌, refl, ap, List, [], ◌∷◌, map, set, get_or, Option, none, some,
}
use void_cache.Entry.{Entry}
use void_cache.Shard.{Shard, slot_at}
use void_cache.Shard.Locks.{shard_lock, shard_unlock}
use void_cache.Cache.{Cache, hash_of, shard_at}
use void_cache.Cache.Get.{
  Fast, used, read_hit, read_miss, read_locked, read_by, fast_path, shard_get, vc_get,
  seqlock_retry,
}
use void_cache.Shard.{shard_find}
use void_cache.Hash.{shard_idx}

-- an entry but for its clock bit
abbrev pub unmarked : Entry → Entry
unmarked e = record e { clock_bit = 0 }

-- a table as a set or a deletion has left it
abbrev pub stored : Shard → ℕ × ℕ × List Entry
stored s = (s.cap, s.count, map unmarked s.table)

-- The same entries in the same slots, with the same keys, values and deadlines, and the same log.
abbrev pub SameContents : Cache → Cache → Type 0
SameContents c c' =
    (map stored c'.shards ≡ map stored c.shards) × (c'.slab ≡ c.slab) × (c'.wal ≡ c.wal)

map-set {ℓ κ} :
    {A : Type ℓ} {B : Type κ} (f : A → B) (xs : List A) (i : ℕ) (v d : A)
    → f v ≡ f (get_or xs i d)
    → map f (set xs i v) ≡ map f xs
map-set f [] i v d e = refl
map-set f (x ∷ xs) zero v d e = ap (λ y. y ∷ map f xs) e
map-set f (x ∷ xs) (suc i) v d e = ap (λ ys. f x ∷ ys) (map-set f xs i v d e)

read_hit-stored : (s : Shard) (slot : ℕ) → stored (read_hit s slot).1 ≡ stored s
unfolding read_hit
read_hit-stored s slot =
    ap (λ t. (s.cap, s.count, t))
      (map-set unmarked s.table slot (used (slot_at s.table slot)) _ refl)

read_by-stored :
    (now : ℕ) (s : Shard) (key : List ℕ) (h : ℕ) (f : Fast)
    → stored (read_by now s key h f).1 ≡ stored s
unfolding read_by read_miss read_locked shard_lock shard_unlock
read_by-stored now s key h Fast.missed = refl
read_by-stored now s key h (Fast.external slot) = read_hit-stored s slot
read_by-stored now s key h Fast.locked = by_slot (shard_find now (shard_lock s) key h)
  where
    by_slot : (o : Option ℕ) → stored (read_locked s o).1 ≡ stored s
    by_slot none = refl
    by_slot (some slot) = read_hit-stored (record s { wlock = 0 }) slot

shard_get-stored :
    (now : ℕ) (s : Shard) (key : List ℕ) (h : ℕ) → stored (shard_get now s key h).1 ≡ stored s
unfolding shard_get
shard_get-stored now s key h = read_by-stored now s key h (fast_path seqlock_retry now s key h)

pub vc_get-SameContents : (now : ℕ) (c : Cache) (key : List ℕ) → SameContents c (vc_get now c key).1
unfolding vc_get
vc_get-SameContents now c key =
    let h = hash_of key in
    (
      map-set stored c.shards (shard_idx h) (shard_get now (shard_at c (shard_idx h)) key h).1 _
          (shard_get-stored now (shard_at c (shard_idx h)) key h),
      refl,
      refl,
    )
