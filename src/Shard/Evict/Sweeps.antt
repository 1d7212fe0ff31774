-- ===== src/Shard/Evict/Sweeps.antt =====
-- `_shard_evict_one` of src/voidcache.c as a whole.
use void_cache.Prelude.{
  ℕ, ◌<◌, ◌≡◌, ◌⊎◌, arith, ◌∙◌, refl, sym, Bool, true, List, Option, none, some, subst, inl, inr,
  Option-cases,
}
use void_cache.Prelude.Bits.{IsPow2-pos}
use void_cache.Slab.{Slab}
use void_cache.Entry.{live, dead, Entry, entry_free_resources}
use void_cache.Shard.{Shard, slot_at, dec32, inc64, evict_from, evict_end, shard_evict_one}
use void_cache.Shard.Walk.{step, step-lt, gap, gap-lt, step-gap, step_next}
use void_cache.Shard.Contents.{
  Content, content, live_count, live_at, weight-le_live_count, weight_one,
}
use void_cache.Shard.Find.{IsTable}
use void_cache.Shard.Lookup.{Adds}
use void_cache.Shard.Evict.Rounds.{Swept, evict_from-Swept}
use void_cache.Shard.Evict.Clock.{IsRipe, IsCleared, met, Clears, evict_from-Clears}

-- A sweep that evicts slot `i` takes the entry of that slot, and nothing else, out of the table,
-- marks the slot dead, counts one entry less and one eviction more, and releases what the entry
-- owned; one that fails changes no contents and releases nothing.
abbrev pub Evicts : Shard → Slab → Option ℕ × Shard × Slab → Type 0
Evicts s sl (none, s', sl') =
    IsTable s'
    × ((p : Content → Bool) → live_count p s'.table ≡ live_count p s.table)
    × (s'.count ≡ s.count)
    × (sl' ≡ sl)
Evicts s sl (some i, s', sl') =
    Adds s' (content (slot_at s'.table i)) s
    × ((slot_at s'.table i).state ≡ dead)
    × (s'.count ≡ dec32 s.count)
    × (s'.evictions ≡ inc64 s.evictions)
    × (sl' ≡ entry_free_resources sl (slot_at s'.table i))

-- Every sweep of a table of the right shape evicts one entry, or fails, as described there.
pub shard_evict_one-Evicts :
    (s : Shard) (sl : Slab) → IsTable s → Evicts s sl (shard_evict_one s sl)
unfolding shard_evict_one evict_end
shard_evict_one-Evicts s sl v =
    by_result (evict_from s.cap s.cap s.table s.clock_hand)
      (evict_from-Swept s.cap v.pow2 s.cap s.table s.clock_hand v.width v.chained)
  where
    by_result :
        (r : Option ℕ × List Entry)
        → Swept s.cap v.pow2 s.table r
        → Evicts s sl (evict_end s sl r.0 r.1)
    by_result (none, t) w = (
      record { pow2 = v.pow2; width = w.width; chained = w.chained },
      λ p. omega (arith, w.counts p),
      refl,
      refl,
    )
    by_result (some i, t) w = (
      record {
        old_shape = record { pow2 = v.pow2; width = w.width; chained = w.chained };
        new_shape = v;
        counts = λ p. sym (w.counts p);
      },
      w.victim.1,
      refl,
      refl,
      refl,
    )

module _ (s : Shard) (sl : Slab) (v : IsTable s) where
  sweep :
      Clears s.cap v.pow2 s.cap s.table s.clock_hand (evict_from s.cap s.cap s.table s.clock_hand)
  sweep = evict_from-Clears s.cap v.pow2 s.cap s.table s.clock_hand v.width (omega arith)

  -- the hand meets every slot
  meets : (i : ℕ) → i < s.cap → (j : ℕ) × (j < s.cap) × (met s.cap v.pow2 s.clock_hand j ≡ i)
  meets i hi =
      let pos = IsPow2-pos s.cap v.pow2 in
      let first = step s.cap s.clock_hand 1 in
      let j = gap s.cap first i in
      (
        j,
        gap-lt s.cap pos first i,
        sym (step_next s.cap pos s.clock_hand j)
            ∙ step-gap s.cap pos first i (step-lt s.cap pos s.clock_hand 1) hi,
      )

  -- A sweep evicts if some live entry has not been used since the last sweep.
  pub shard_evict_one_ripe :
      (i : ℕ)
      → i < s.cap
      → IsRipe (slot_at s.table i)
      → (k : ℕ) × ((shard_evict_one s sl).0 ≡ some k)
  unfolding shard_evict_one evict_end
  shard_evict_one_ripe i hi ripe =
      let (j, hj, e) = meets i hi in
      let (k, q) = sweep.ripe j hj (subst (λ m. IsRipe (slot_at s.table m)) (sym e) ripe) in
      (k, rw (q, evict_end))

  -- A sweep that fails has cleared the clock bit of every live entry, and left the hand.
  pub shard_evict_one-IsCleared :
      (i : ℕ)
      → i < s.cap
      → (shard_evict_one s sl).0 ≡ none
      → IsCleared (slot_at (shard_evict_one s sl).1.table i)
  unfolding shard_evict_one evict_end
  shard_evict_one-IsCleared i hi failed =
      let (j, hj, e) = meets i hi in
      by_result (evict_from s.cap s.cap s.table s.clock_hand) refl failed
    where
      by_result :
          (r : Option ℕ × List Entry)
          → evict_from s.cap s.cap s.table s.clock_hand ≡ r
          → (evict_end s sl r.0 r.1).0 ≡ none
          → IsCleared (slot_at (evict_end s sl r.0 r.1).1.table i)
      by_result (some k, t) q f = cc
      by_result (none, t) q f =
          let (j, hj, e) = meets i hi in
          subst (λ m. IsCleared (slot_at t m)) e (rw q at (sweep.cleared (rw q)) j hj)

Evicts-none :
    (s : Shard) (sl : Slab) (r : Option ℕ × Shard × Slab)
    → r.0 ≡ none
    → Evicts s sl r
    → IsTable r.1 × ((p : Content → Bool) → live_count p r.1.table ≡ live_count p s.table)
Evicts-none s sl (none, s', sl') e w = (w.0, w.1)
Evicts-none s sl (some i, s', sl') e w = cc

cap-evict_end :
    (s : Shard) (sl : Slab) (o : Option ℕ) (t : List Entry) → (evict_end s sl o t).1.cap ≡ s.cap
unfolding evict_end
cap-evict_end s sl none t = refl
cap-evict_end s sl (some i) t = refl

pub cap-shard_evict_one : (s : Shard) (sl : Slab) → (shard_evict_one s sl).1.cap ≡ s.cap
unfolding shard_evict_one
cap-shard_evict_one s sl = cap-evict_end s sl _ _

-- While a table of the right shape holds a live entry, the first or the second of two sweeps
-- evicts one.
pub evict_twice :
    (s : Shard) (sl : Slab) (i : ℕ)
    → IsTable s
    → i < s.cap
    → (slot_at s.table i).state ≡ live
    → let r = shard_evict_one s sl in
      ((k : ℕ) × (r.0 ≡ some k)) ⊎ ((k : ℕ) × ((shard_evict_one r.1 r.2).0 ≡ some k))
evict_twice s sl i v hi alive =
    let r = shard_evict_one s sl in
    elim (Option-cases r.0) [
      | inr found ↦ inl found
      | inl failed ↦
          let (v', same) = Evicts-none s sl r failed (shard_evict_one-Evicts s sl v) in
          let any : Content → Bool = λ _. true in
          let some_live : 0 < live_count any r.1.table = omega (
            arith,
            same any,
            weight-le_live_count any s.table i (omega (arith, v.width)),
            weight_one any (slot_at s.table i) alive refl,
          ) in
          let (j, hj, alive', _) = live_at any r.1.table some_live in
          let hj' : j < s.cap = omega (arith, v'.width, cap-shard_evict_one s sl) in
          inr (
            shard_evict_one_ripe r.1 r.2 v' j (omega (arith, v'.width)) (record {
              is_live = alive';
              unused = shard_evict_one-IsCleared s sl v j hj' failed alive';
            }))
    ]
