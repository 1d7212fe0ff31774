-- ===== src/Shard/Tests.antt =====
-- The functions of the shard on a table of four slots.
use void_cache.Prelude.{
  ℕ, ◌≡◌, ◌<◌, ◌+◌, ◌↔◌, false, arith, refl, true, [], ◌∷◌, none, some, replicate, set, inl, ◌⊎◌,
  bytes_eq,
}
use void_cache.Slab.{Slab, slab_init}
use void_cache.Entry.{live, Entry, packed, zero_entry, entry_matches, entry_key, entry_expired}
use void_cache.Shard.{
  Shard, next_slot, table_slot, spared, shard_find, shard_insert, shard_evict_one, insert_loop,
}
use void_cache.Shard.Contents.{one_slot, content, live_count}
use void_cache.Shard.Find.{IsTable, IsUnique, Has, shard_find_iff}
use void_cache.Shard.Lookup.{lookup, lookup_iff, has_key, expired, copies, is}
use void_cache.Shard.Insert.Keep.{shard_insert-IsTable}
use void_cache.Shard.Insert.Total.{shard_insert-live_count}
use void_cache.Shard.Evict.Sweeps.{Evicts, shard_evict_one-Evicts, evict_twice}
use void_cache.Shard.Counted.{zeroed-IsCounted}
use void_cache.Shard.Alter.{IsChained-alter}

-- the entry of the key `A` under the hash 6
abbrev entry_a : Entry
entry_a = record zero_entry {
  state = live;
  val_len = 1;
  key_len = 1;
  key_hash = 6;
  clock_bit = 1;
  payload = packed (b'A' ∷ b'x' ∷ []);
}

abbrev empty_table : Shard
empty_table = record {
  table = replicate 4 zero_entry;
  cap = 4;
  count = 0;
  clock_hand = 0;
  seq = 0;
  wlock = 0;
  hits = 0;
  misses = 0;
  sets = 0;
  evictions = 0;
  expirations = 0;
}

-- a table with that entry in its home, slot 2
abbrev one_entry : Shard
one_entry = record empty_table { table = set (replicate 4 zero_entry) 2 entry_a; count = 1 }

abbrev some_slab : Slab
some_slab = slab_init 4096

empty_table-IsTable : IsTable empty_table
empty_table-IsTable = (zeroed-IsCounted empty_table (2, refl) (omega arith) refl refl).shape

one_entry-inserted : shard_insert empty_table entry_a ≡ record one_entry { count = 0 }
unfolding shard_insert insert_loop table_slot
one_entry-inserted = refl

one_entry-IsTable : IsTable one_entry
one_entry-IsTable =
    let v =
      rw one_entry-inserted at (shard_insert-IsTable empty_table entry_a empty_table-IsTable) in
    record { pow2 = v.pow2; width = v.width; chained = v.chained }

-- the same, unused since the last sweep
abbrev one_unused : Shard
one_unused = record one_entry { table = set one_entry.table 2 (spared entry_a) }

one_unused-IsTable : IsTable one_unused
one_unused-IsTable =
    let v = one_entry-IsTable in
    record {
      pow2 = v.pow2;
      width = refl;
      chained =
          IsChained-alter one_entry.table 2 (spared entry_a) (omega arith) 4 (λ q. cc)
            (λ _. (refl, refl)) v.chained;
    }

-- a table of one slot, and the same with that slot live
abbrev one_slot_empty : Shard
one_slot_empty = record empty_table { table = zero_entry ∷ []; cap = 1 }

abbrev one_slot_full : Shard
one_slot_full = shard_insert one_slot_empty entry_a

one_slot_full-IsTable : IsTable one_slot_full
one_slot_full-IsTable =
    shard_insert-IsTable one_slot_empty entry_a
      (zeroed-IsCounted one_slot_empty (0, refl) (omega arith) refl refl).shape

one_copy : copies one_entry (b'A' ∷ []) 6 ≡ 1
unfolding live_count has_key entry_matches entry_key bytes_eq
one_copy = refl

one_entry-IsUnique : IsUnique 4 one_entry.table 6 (b'A' ∷ [])
unfolding has_key entry_matches
one_entry-IsUnique i j hi hj a b =
    one_slot (has_key 6 (b'A' ∷ [])) one_entry.table (omega (arith, one_copy)) i j hi hj a.is_live
      a.same b.is_live b.same

shard_find_iff_example :
    (shard_find 0 one_entry (b'A' ∷ []) 6 ≡ some 2)
    ↔ ((2 < 4) × Has 6 (b'A' ∷ []) entry_a × (entry_expired 0 entry_a ≡ false))
shard_find_iff_example =
    shard_find_iff 0 one_entry (b'A' ∷ []) 6 2 one_entry-IsTable one_entry-IsUnique

lookup_iff_example : (lookup 0 one_entry (b'A' ∷ []) 6 ≡ some (content entry_a)) ↔ (
    (0 < live_count (is (content entry_a)) one_entry.table)
    × (has_key 6 (b'A' ∷ []) (content entry_a) ≡ true)
    × (expired 0 (content entry_a) ≡ false))
lookup_iff_example =
    lookup_iff 0 one_entry (b'A' ∷ []) 6 (content entry_a) one_entry-IsTable
      (omega (arith, one_copy))

-- an entry of another key with the same hash
abbrev entry_b : Entry
entry_b = record entry_a { payload = packed (b'B' ∷ b'y' ∷ []) }

shard_insert-live_count_example :
    live_count (λ _. true) (shard_insert one_entry entry_b).table
    ≡ live_count (λ _. true) one_entry.table + 1
shard_insert-live_count_example =
    shard_insert-live_count one_entry entry_b one_entry-IsTable (λ _. true) 0 (omega arith)
      (inl refl)

shard_evict_one-Evicts_example : Evicts one_unused some_slab (shard_evict_one one_unused some_slab)
shard_evict_one-Evicts_example = shard_evict_one-Evicts one_unused some_slab one_unused-IsTable

sweep_fails : (shard_evict_one one_entry some_slab).0 ≡ none
unfolding shard_evict_one next_slot
sweep_fails = refl

evict_twice_example :
    let r = shard_evict_one one_entry some_slab in
    ((k : ℕ) × (r.0 ≡ some k)) ⊎ ((k : ℕ) × ((shard_evict_one r.1 r.2).0 ≡ some k))
evict_twice_example = evict_twice one_entry some_slab 2 one_entry-IsTable (omega arith) refl
