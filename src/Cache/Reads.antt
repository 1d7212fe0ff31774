-- ===== src/Cache/Reads.antt =====
-- `vc_get` of src/voidcache.c against the shard as a map.
use void_cache.Prelude.{
  ℕ, suc, ◌≤◌, ◌<◌, ◌≡◌, ◌↔◌, arith, ◌∙◌, refl, sym, Bool, true, false, List, [], Option, none,
  some, set, length, length-set, ap, ==_iff, if◌then◌else◌,
}
use void_cache.Hash.{shard_idx}
use void_cache.Slab.{Slab}
use void_cache.Entry.{entry_val}
use void_cache.Shard.{Shard, slot_at, shard_find, inc64}
use void_cache.Shard.Locks.{shard_lock, shard_unlock, seq_read_begin, seq_read_retry}
use void_cache.Shard.Contents.{Content, live_count, live_count-set}
use void_cache.Shard.Alter.{slot_at-alter_self, IsChained-alter}
use void_cache.Shard.Lookup.{
  as_entry, lookup, lookup_iff, is, has_key, expired, contents_at, copies,
}
use void_cache.Shard.Counted.{IsCounted, any, IsIdle-set, IsCounted-locks}
use void_cache.Shard.Distinct.{find_in}
use void_cache.Cache.{Err, Cache, hash_of, shard_at}
use void_cache.Cache.Get.{
  Fast, fast_path, is_external, used, read_locked, read_hit, read_miss, read_by, shard_get,
  value_at, vc_get,
}

-- The first of the reads without the lock decides, since no writer runs beside it.
fast_path_first :
    (n now : ℕ) (s : Shard) (key : List ℕ) (h : ℕ)
    → fast_path (suc n) now s key h ≡ elim (shard_find now s key h) [
      | none ↦ Fast.missed
      | some slot ↦
          if is_external (slot_at s.table slot).payload then Fast.external slot else Fast.locked
    ]
unfolding fast_path seq_read_begin seq_read_retry
fast_path_first n now s key h =
    by_find (shard_find now s key h) (λ slot. is_external (slot_at s.table slot).payload) _
      (rw ((==_iff s.seq s.seq).1 refl) refl)
  where
    by_find :
        (o : Option ℕ) (outside : ℕ → Bool) (again : Bool)
        → again ≡ false
        → (elim o as (λ x. Fast) [
          | none ↦ if again then fast_path n now s key h else Fast.missed
          | some slot ↦
              if outside slot
              then (if again then fast_path n now s key h else Fast.external slot)
              else Fast.locked
        ])
          ≡ (elim o as (λ x. Fast) [
            | none ↦ Fast.missed
            | some slot ↦ if outside slot then Fast.external slot else Fast.locked
          ])
    by_find none outside again e = rw e refl
    by_find (some slot) outside again e = rw e refl

-- the shard after a read of what was found
abbrev pub after_read : Shard → Option ℕ → Shard
after_read s none = record s { misses = inc64 s.misses }
after_read s (some slot) = record s {
  table = set s.table slot (used (slot_at s.table slot));
  hits = inc64 s.hits;
}

-- A read of a shard whose lock is free returns what `_shard_find` finds, whichever of its paths it
-- takes; it marks the entry found as used and counts a hit, or counts a miss.
pub shard_get_lem :
    (now : ℕ) (s : Shard) (key : List ℕ) (h : ℕ)
    → s.wlock ≡ 0
    → shard_get now s key h ≡ (shard_find now s key h, after_read s (shard_find now s key h))
unfolding shard_get read_by read_hit read_miss read_locked shard_lock shard_unlock shard_find
shard_get_lem now s key h unlocked =
    rw (fast_path_first 7 now s key h) (by_find (shard_find now s key h) refl)
  where
    first : Option ℕ → Fast
    first none = Fast.missed
    first (some slot) =
        if is_external (slot_at s.table slot).payload then Fast.external slot else Fast.locked

    by_payload :
        (slot : ℕ) (b : Bool)
        → shard_find now s key h ≡ some slot
        → read_by now s key h (if b then Fast.external slot else Fast.locked)
          ≡ (some slot, after_read s (some slot))
    by_payload slot true e = refl
    by_payload slot false e =
        ap (read_locked s) e
        ∙ ap (λ w. (some slot, record (after_read s (some slot)) { wlock = w })) (sym unlocked)

    by_find :
        (o : Option ℕ)
        → shard_find now s key h ≡ o
        → read_by now s key h (first o) ≡ (o, after_read s o)
    by_find none e = refl
    by_find (some slot) e = by_payload slot (is_external (slot_at s.table slot).payload) e

module _ (now : ℕ) (s : Shard) (key : List ℕ) (h : ℕ) (v : IsCounted s)
    (few : copies s key h ≤ 1) where
  abbrev pub after : Shard
  after = after_read s (shard_find now s key h)

  -- A read changes no contents: it counts a hit or a miss and marks the entry as used.
  pub after_read-counts : (p : Content → Bool) → live_count p after.table ≡ live_count p s.table
  after_read-counts p = by_find _ refl
    where
      by_find :
          (o : Option ℕ)
          → shard_find now s key h ≡ o
          → live_count p (after_read s o).table ≡ live_count p s.table
      by_find none e = refl
      by_find (some i) e =
          let (hi, alive) = find_in now s key h i v.shape few e in
          omega (
            arith,
            live_count-set p s.table i (used (slot_at s.table i)) (omega (arith, v.shape.width)),
          )

  pub after_read-IsCounted : IsCounted after
  after_read-IsCounted = by_find _ refl
    where
      by_find : (o : Option ℕ) → shard_find now s key h ≡ o → IsCounted (after_read s o)
      by_find none e = IsCounted-locks s _ _ _ _ _ v
      by_find (some i) e =
          let (hi, alive) = find_in now s key h i v.shape few e in
          let e' = used (slot_at s.table i) in
          let in_range : i < length s.table = omega (arith, v.shape.width) in
          record {
            shape = record {
              pow2 = v.shape.pow2;
              width = length-set s.table i e' ∙ v.shape.width;
              chained =
                  IsChained-alter s.table i e' in_range s.cap (λ q. cc) (λ _. (alive, refl))
                    v.shape.chained;
            };
            idle = IsIdle-set s.table i e' (λ q. cc) v.idle;
            counted = omega (arith, v.counted, live_count-set any s.table i e' in_range);
            small = v.small;
          }

-- what a caller of `vc_get` is told of these contents
abbrev pub answer : Slab → Option Content → Err × List ℕ
answer sl none = (Err.notfnd, [])
answer sl (some c) = (Err.ok, entry_val sl (as_entry c))

-- On a shard whose lock is free, a get tells the caller what the key leads to in the shard as a
-- map: the bytes of its value, or that there is none.
pub vc_get-lookup :
    (now : ℕ) (c : Cache) (key : List ℕ)
    → IsCounted (shard_at c (shard_idx (hash_of key)))
    → copies (shard_at c (shard_idx (hash_of key))) key (hash_of key) ≤ 1
    → (shard_at c (shard_idx (hash_of key))).wlock ≡ 0
    → (vc_get now c key).0
      ≡ answer c.slab (lookup now (shard_at c (shard_idx (hash_of key))) key (hash_of key))
unfolding vc_get value_at lookup contents_at entry_val
vc_get-lookup now c key v few unlocked =
    rw (shard_get_lem now s key (hash_of key) unlocked) (by_find _ refl)
  where
    s : Shard
    s = shard_at c (shard_idx (hash_of key))

    by_find :
        (o : Option ℕ)
        → shard_find now s key (hash_of key) ≡ o
        → value_at c (after_read s o) o ≡ answer c.slab (contents_at s.table o)
    by_find none e = refl
    by_find (some i) e =
        let (hi, alive) = find_in now s key (hash_of key) i v.shape few e in
        rw (slot_at-alter_self s.table i (used (slot_at s.table i)) (omega (arith, v.shape.width)))
          refl

-- some live entry of the shard of the key, wherever it stands, has the key and its hash, has not
-- expired, and holds this value
abbrev pub Holds : ℕ → Cache → List ℕ → List ℕ → Type 0
Holds now c key val =
    (x : Content) × (0 < live_count (is x) (shard_at c (shard_idx (hash_of key))).table)
    × (has_key (hash_of key) key x ≡ true)
    × (expired now x ≡ false)
    × (entry_val c.slab (as_entry x) ≡ val)

-- In a shard that satisfies the invariant, with its lock free and at most one entry of the key: a
-- get of the key returns VC_OK and a value exactly if some live entry of the shard has the key, has
-- not expired and holds that value, and VC_ERR_NOTFND exactly if no entry does.
pub vc_get_iff :
    (now : ℕ) (c : Cache) (key : List ℕ)
    → IsCounted (shard_at c (shard_idx (hash_of key)))
    → copies (shard_at c (shard_idx (hash_of key))) key (hash_of key) ≤ 1
    → (shard_at c (shard_idx (hash_of key))).wlock ≡ 0
    → ((val : List ℕ) → ((vc_get now c key).0 ≡ (Err.ok, val)) ↔ Holds now c key val)
      × (((vc_get now c key).0 ≡ (Err.notfnd, [])) ↔ ((val : List ℕ) → ¬ Holds now c key val))
vc_get_iff now c key v few unlocked =
    by_lookup (lookup now s key (hash_of key)) refl (vc_get-lookup now c key v few unlocked)
  where
    s : Shard
    s = shard_at c (shard_idx (hash_of key))

    by_lookup :
        (o : Option Content)
        → lookup now s key (hash_of key) ≡ o
        → (vc_get now c key).0 ≡ answer c.slab (lookup now s key (hash_of key))
        → ((val : List ℕ) → ((vc_get now c key).0 ≡ (Err.ok, val)) ↔ Holds now c key val)
          × (((vc_get now c key).0 ≡ (Err.notfnd, [])) ↔ ((val : List ℕ) → ¬ Holds now c key val))
    by_lookup none e got =
        let said : (vc_get now c key).0 ≡ (Err.notfnd, []) = got ∙ ap (answer c.slab) e in
        let nothing : (val : List ℕ) → ¬ Holds now c key val = λ val (x, some_x, has, fresh, same).
          let found = (lookup_iff now s key (hash_of key) x v.shape few).1 (some_x, has, fresh) in
          cc in
        (λ val. (λ q. cc, λ holds. absurd (nothing val holds)), (λ q. nothing, λ q. said))
    by_lookup (some x) e got =
        let said : (vc_get now c key).0 ≡ (Err.ok, entry_val c.slab (as_entry x)) =
          got ∙ ap (answer c.slab) e in
        let (some_x, has, fresh) = (lookup_iff now s key (hash_of key) x v.shape few).0 e in
        (
          λ val. (
            λ q. (x, some_x, has, fresh, cc),
            λ (y, some_y, has_y, fresh_y, same).
                let found =
                  (lookup_iff now s key (hash_of key) y v.shape few).1 (some_y, has_y, fresh_y) in
                said
                ∙ ap (λ d. (Err.ok, entry_val c.slab (as_entry d))) {x = x} {y = y} (cc)
                ∙ ap (λ w. (Err.ok, w)) same,
          ),
          (
            λ q. absurd (cc),
            λ q. absurd (q (entry_val c.slab (as_entry x)) (x, some_x, has, fresh, refl)),
          ),
        )
