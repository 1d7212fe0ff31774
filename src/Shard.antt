-- ===== src/Shard.antt =====
-- One shard of src/voidcache.c: the open-addressing table (`_shard_find`, `_shard_evict_one`,
-- `_shard_insert`), the writer lock and the sequence counter, as one call sees them.
pub mod Walk
pub mod Contents
pub mod Alter
pub mod Find
pub mod Insert
pub mod Lookup
pub mod Evict
pub mod Counted
pub mod Distinct
pub mod Locks
mod Tests
use void_cache.Prelude.{
  ℕ, zero, suc, ◌+◌, ◌-◌, ◌*◌, ◌/◌, ◌%◌, ◌^◌, List, Option, none, some, Bool, true, false, get_or,
  set, ltb, leb, bit_and, ◌==◌, if◌then◌else◌, replicate,
}
use void_cache.Slab.{Slab}
use void_cache.Entry.{
  State, empty, busy, live, dead, Entry, zero_entry, entry_expired, entry_matches,
  entry_free_resources,
}

-- `vc_shard_t`
pub record Shard : Type 0 where
  pub table : List Entry
  pub cap : ℕ
  pub count : ℕ
  pub clock_hand : ℕ
  pub seq : ℕ
  pub wlock : ℕ
  pub hits : ℕ
  pub misses : ℕ
  pub sets : ℕ
  pub evictions : ℕ
  pub expirations : ℕ

abbrev pub slot_at : List Entry → ℕ → Entry
slot_at t i = get_or t i zero_entry

unfoldable pub table_slot : ℕ → ℕ → ℕ
table_slot h cap = bit_and h (cap - 1)

-- `(slot + 1) & (cap - 1)`
unfoldable pub next_slot : ℕ → ℕ → ℕ
next_slot slot cap = bit_and (slot + 1) (cap - 1)

-- what a find does at one slot
pub data Seen : Type 0 where
  stop skip hit : Seen

look : ℕ → List ℕ → Entry → State → Seen
look hash key e empty = Seen.stop
look hash key e busy = Seen.skip
look hash key e live = if entry_matches hash key e then Seen.hit else Seen.skip
look hash key e dead = Seen.skip

module _ (now : ℕ) (key : List ℕ) (hash : ℕ) (cap : ℕ) (t : List Entry) where
  -- The loop of `_shard_find`, on the rounds that are left; `none` is UINT32_MAX.
  find_from : ℕ → ℕ → Option ℕ
  find_from zero slot = none
  find_from (suc n) slot =
      let rest = find_from n (next_slot slot cap) in
      let e = slot_at t slot in
      elim (look hash key e e.state) [
        | Seen.stop ↦ none
        | Seen.skip ↦ rest
        | Seen.hit ↦ if entry_expired now e then none else some slot
      ]

unfoldable pub shard_find : ℕ → Shard → List ℕ → ℕ → Option ℕ
unfolding find_from look
shard_find now s key hash = find_from now key hash s.cap s.table s.cap (table_slot hash s.cap)

-- The entry as a slot holds it from now on.
abbrev pub placed : Entry → Entry
placed e = record e { state = live; clock_bit = 1 }

-- `incoming->probe_dist++` on a uint8_t
abbrev pub farther : Entry → Entry
farther e = record e { probe_dist = (e.probe_dist + 1) % 2 ^ 8 }

-- what an insertion does at one slot: take it, swap with the entry there, or pass
pub data Move : Type 0 where
  take_it swap pass : Move

move_at : Entry → Entry → State → Move
move_at e incoming empty = Move.take_it
move_at e incoming dead = Move.take_it
move_at e incoming busy = Move.pass
move_at e incoming live = if ltb e.probe_dist incoming.probe_dist then Move.swap else Move.pass

-- The loop of `_shard_insert`; what it returns beside the table is the entry still in
-- `*incoming` when the rounds are used up.
pub insert_from : ℕ → ℕ → List Entry → Entry → ℕ → List Entry × Option Entry
insert_from cap zero t incoming slot = (t, some incoming)
insert_from cap (suc n) t incoming slot =
    let e = slot_at t slot in
    elim (move_at e incoming e.state) [
      | Move.take_it ↦ (set t slot (placed incoming), none)
      | Move.swap ↦
          insert_from cap n (set t slot (placed incoming)) (farther e) (next_slot slot cap)
      | Move.pass ↦ insert_from cap n t (farther incoming) (next_slot slot cap)
    ]

unfoldable pub insert_loop : Shard → Entry → List Entry × Option Entry
unfolding insert_from move_at
insert_loop s incoming =
    insert_from s.cap s.cap s.table (record incoming { probe_dist = 0 })
      (table_slot incoming.key_hash s.cap)

unfoldable pub shard_insert : Shard → Entry → Shard
shard_insert s incoming = record s { table = (insert_loop s incoming).0 }

-- atomic_fetch_add and atomic_fetch_sub on the uint32_t and uint64_t counters
abbrev pub dec32 : ℕ → ℕ
dec32 n = (n + (2 ^ 32 - 1)) % 2 ^ 32

abbrev pub inc32 : ℕ → ℕ
inc32 n = (n + 1) % 2 ^ 32

abbrev pub inc64 : ℕ → ℕ
inc64 n = (n + 1) % 2 ^ 64

-- what the clock hand does at one slot
pub data Sweep : Type 0 where
  go_on spare steal : Sweep

sweep_at : ℕ → State → Sweep
sweep_at clock_bit empty = Sweep.go_on
sweep_at clock_bit busy = Sweep.go_on
sweep_at clock_bit dead = Sweep.go_on
sweep_at clock_bit live = if clock_bit == 0 then Sweep.steal else Sweep.spare

abbrev pub spared : Entry → Entry
spared e = record e { clock_bit = 0 }

abbrev pub buried : Entry → Entry
buried e = record e { state = dead }

-- The loop of `_shard_evict_one`, on the rounds left and the hand: the slot evicted (`none` is
-- UINT32_MAX), and the table.
pub evict_from : ℕ → ℕ → List Entry → ℕ → Option ℕ × List Entry
evict_from cap zero t h = (none, t)
evict_from cap (suc n) t h =
    let h' = next_slot h cap in
    let e = slot_at t h' in
    elim (sweep_at e.clock_bit e.state) [
      | Sweep.go_on ↦ evict_from cap n t h'
      | Sweep.spare ↦ evict_from cap n (set t h' (spared e)) h'
      | Sweep.steal ↦ (some h', set t h' (buried e))
    ]

unfoldable pub evict_end : Shard → Slab → Option ℕ → List Entry → Option ℕ × Shard × Slab
evict_end s sl none t = (none, record s { table = t }, sl)
evict_end s sl (some h) t = (
  some h,
  record s { table = t; count = dec32 s.count; evictions = inc64 s.evictions; clock_hand = h },
  entry_free_resources sl (slot_at t h),
)

unfoldable pub shard_evict_one : Shard → Slab → Option ℕ × Shard × Slab
unfolding evict_from evict_end sweep_at
shard_evict_one s sl =
    let (slot, t) = evict_from s.cap s.cap s.table s.clock_hand in evict_end s sl slot t

-- `entry_free_resources`, the store of DEAD and the count, as `vc_set` and `vc_del` write them
unfoldable pub shard_bury : Shard → Slab → ℕ → Shard × Slab
shard_bury s sl slot =
    let e = slot_at s.table slot in
    (
      record s { table = set s.table slot (buried e); count = dec32 s.count },
      entry_free_resources sl e,
    )
