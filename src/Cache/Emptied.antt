-- ===== src/Cache/Emptied.antt =====
-- What `vc_flush` of src/voidcache.c leaves of each shard.
use void_cache.Prelude.{
  ℕ, zero, suc, ◌<◌, ◌≡◌, ◌≢◌, arith, ◌∙◌, refl, sym, ap, Bool, List, [], ◌∷◌, none, length, get_or,
}
use void_cache.Slab.{Slab}
use void_cache.Entry.{State, empty, busy, live, dead, Entry}
use void_cache.Shard.{Shard, slot_at}
use void_cache.Shard.Locks.{shard_lock, shard_unlock, seq_write_begin, seq_write_end}
use void_cache.Shard.Contents.{Content, content, to_nat, if_live, live_count}
use void_cache.Shard.Find.{IsTable}
use void_cache.Shard.Lookup.{lookup, has_key}
use void_cache.Shard.Counted.{IsCounted, any}
use void_cache.Shard.Distinct.{lookup-absent}
use void_cache.Cache.{Cache, new_shard, shard_at}
use void_cache.Cache.Remove.{flush_entry, flush_table, flush_shard, flush_shards, vc_flush}

flush_entry-state :
    (sl : Slab) (e : Entry) (s : State)
    → e.state ≡ s
    → ((flush_entry sl e s).0.state ≢ live) × (e.state ≢ busy → (flush_entry sl e s).0.state ≢ busy)
unfolding flush_entry
flush_entry-state sl e live p = (λ q. cc, λ _ q. cc)
flush_entry-state sl e empty p = (λ q. cc, λ h. h)
flush_entry-state sl e busy p = (λ q. cc, λ h. h)
flush_entry-state sl e dead p = (λ q. cc, λ h. h)

flush_table-length : (sl : Slab) (t : List Entry) → length (flush_table sl t).0 ≡ length t
unfolding flush_table
flush_table-length sl [] = refl
flush_table-length sl (e ∷ es) = ap suc (flush_table-length (flush_entry sl e e.state).1 es)

flush_table-state :
    (sl : Slab) (t : List Entry) (i : ℕ)
    → ((slot_at (flush_table sl t).0 i).state ≢ live)
      × ((slot_at t i).state ≢ busy → (slot_at (flush_table sl t).0 i).state ≢ busy)
unfolding flush_table
flush_table-state sl [] i = (λ q. cc, λ h. h)
flush_table-state sl (e ∷ es) zero = flush_entry-state sl e e.state refl
flush_table-state sl (e ∷ es) (suc i) = flush_table-state (flush_entry sl e e.state).1 es i

none_live :
    (p : Content → Bool) (t : List Entry)
    → ((i : ℕ) → (slot_at t i).state ≢ live)
    → live_count p t ≡ 0
unfolding live_count
none_live p [] h = refl
none_live p (e ∷ es) h = omega (arith, none_live p es (λ i. h (suc i)), no_weight e.state (h 0))
  where
    no_weight : (s : State) → s ≢ live → if_live s (to_nat (p (content e))) ≡ 0
    no_weight live q = absurd (q refl)
    no_weight empty q = refl
    no_weight busy q = refl
    no_weight dead q = refl

-- A flushed shard satisfies the invariant, counts no entry and holds none, and its lock is free.
abbrev pub IsEmptied : Shard → Type 0
IsEmptied s =
    IsCounted s
    × (s.count ≡ 0)
    × (s.wlock ≡ 0)
    × ((now : ℕ) (key : List ℕ) (hash : ℕ) → lookup now s key hash ≡ none)

flush_shard-IsEmptied : (s : Shard) (sl : Slab) → IsCounted s → IsEmptied (flush_shard s sl).0
unfolding flush_shard shard_lock shard_unlock seq_write_begin seq_write_end
flush_shard-IsEmptied s sl v =
    let no_live : (i : ℕ) → (slot_at (flush_table sl s.table).0 i).state ≢ live =
      λ i. (flush_table-state sl s.table i).0 in
    let shape : IsTable (flush_shard s sl).0 = record {
      pow2 = v.shape.pow2;
      width = flush_table-length sl s.table ∙ v.shape.width;
      chained = λ i hi alive. absurd (no_live i alive);
    } in
    (
      record {
        shape = shape;
        idle = λ i. (flush_table-state sl s.table i).1 (v.idle i);
        counted = sym (none_live any _ no_live);
        small = v.small;
      },
      refl,
      refl,
      λ now key hash.
          lookup-absent now (flush_shard s sl).0 key hash shape
            (none_live (has_key hash key) _ no_live),
    )

flush_shards-IsEmptied :
    (ss : List Shard) (sl : Slab) (i : ℕ)
    → i < length ss
    → IsCounted (get_or ss i (new_shard 1))
    → IsEmptied (get_or (flush_shards sl ss).0 i (new_shard 1))
unfolding flush_shards
flush_shards-IsEmptied [] sl i h v = absurd (omega (arith, h))
flush_shards-IsEmptied (s ∷ ss) sl zero h v = flush_shard-IsEmptied s sl v
flush_shards-IsEmptied (s ∷ ss) sl (suc i) h v =
    flush_shards-IsEmptied ss (flush_shard s sl).1 i (omega (arith, h)) v

-- After a flush every shard that satisfied the invariant is empty: it satisfies it still, counts
-- no entry, its lock is free, and every lookup in it finds nothing.
pub vc_flush-IsEmptied :
    (c : Cache) (si : ℕ)
    → si < length c.shards
    → IsCounted (shard_at c si)
    → IsEmptied (shard_at (vc_flush c) si)
unfolding vc_flush
vc_flush-IsEmptied c si h v = flush_shards-IsEmptied c.shards c.slab si h v
