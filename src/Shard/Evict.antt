-- ===== src/Shard/Evict.antt =====
-- `_shard_evict_one` of src/voidcache.c: the CLOCK sweep.
pub mod Rounds
pub mod Clock
pub mod Sweeps
use void_cache.Prelude.{
  ℕ, zero, suc, ◌+◌, ◌≤◌, ◌<◌, ◌≡◌, ◌≢◌, ◌⊎◌, arith, ◌∙◌, refl, sym, Bool, true, false, List,
  Option, none, some, set, length, length-set, subst, inl, inr, get_or-set_self, get_or-set_ne,
  Bool-cases, ◌==◌,
}
use void_cache.Entry.{State, empty, busy, live, dead, Entry, zero_entry}
use void_cache.Shard.{Sweep, slot_at, next_slot, sweep_at, spared, buried, evict_from}

module _ (e : Entry) where
  steal_live :
      (s : State)
      → e.state ≡ s
      → sweep_at e.clock_bit s ≡ Sweep.steal
      → (e.state ≡ live) × (e.clock_bit ≡ 0)
  unfolding sweep_at
  steal_live empty p h = cc
  steal_live busy p h = cc
  steal_live dead p h = cc
  steal_live live p h = (p, ground (arith, h))

  spare_live :
      (s : State)
      → e.state ≡ s
      → sweep_at e.clock_bit s ≡ Sweep.spare
      → (e.state ≡ live) × (e.clock_bit ≢ 0)
  unfolding sweep_at
  spare_live empty p h = cc
  spare_live busy p h = cc
  spare_live dead p h = cc
  spare_live live p h = (p, ground (arith, h))

  go_on-not-live : (s : State) → e.state ≡ s → sweep_at e.clock_bit s ≡ Sweep.go_on → e.state ≢ live
  unfolding sweep_at
  go_on-not-live empty p h = cc
  go_on-not-live busy p h = cc
  go_on-not-live dead p h = cc
  go_on-not-live live p h = ground (arith, h)

-- Induction over the rounds of a sweep.
module _ (cap : ℕ) (P : ℕ → List Entry → ℕ → Option ℕ × List Entry → Type 0)
    (at_end : (t : List Entry) (h : ℕ) → P 0 t h (none, t))
    (at_other : (n : ℕ) (t : List Entry) (h : ℕ) (r : Option ℕ × List Entry)
      → (slot_at t (next_slot h cap)).state ≢ live
      → P n t (next_slot h cap) r
      → P (suc n) t h r)
    (at_spare : (n : ℕ) (t : List Entry) (h : ℕ) (r : Option ℕ × List Entry)
      → (slot_at t (next_slot h cap)).state ≡ live
      → (slot_at t (next_slot h cap)).clock_bit ≢ 0
      → P n (set t (next_slot h cap) (spared (slot_at t (next_slot h cap)))) (next_slot h cap) r
      → P (suc n) t h r)
    (at_steal : (n : ℕ) (t : List Entry) (h : ℕ)
      → (slot_at t (next_slot h cap)).state ≡ live
      → (slot_at t (next_slot h cap)).clock_bit ≡ 0
      → P (suc n) t h (
        some (next_slot h cap),
        set t (next_slot h cap) (buried (slot_at t (next_slot h cap))),
      )) where
  pub evict_rule : (n : ℕ) (t : List Entry) (h : ℕ) → P n t h (evict_from cap n t h)
  unfolding evict_from
  evict_rule zero t h = at_end t h
  evict_rule (suc n) t h =
      by_sweep (sweep_at (slot_at t (next_slot h cap)).clock_bit _) refl
        (evict_rule n t (next_slot h cap))
        (evict_rule n (set t (next_slot h cap) (spared (slot_at t (next_slot h cap))))
          (next_slot h cap))
    where
      here : Entry
      here = slot_at t (next_slot h cap)

      by_sweep :
          (w : Sweep)
          → sweep_at here.clock_bit here.state ≡ w
          → P n t (next_slot h cap) (evict_from cap n t (next_slot h cap))
          → P n
              (set t (next_slot h cap) (spared here))
              (next_slot h cap)
              (evict_from cap n (set t (next_slot h cap) (spared here)) (next_slot h cap))
          → P (suc n) t h (evict_from cap (suc n) t h)
      by_sweep Sweep.go_on e other spare =
          rw (e, evict_from) (at_other n t h _ (go_on-not-live here _ refl e) other)
      by_sweep Sweep.spare e other spare =
          let (alive, used) = spare_live here _ refl e in
          rw (e, evict_from) (at_spare n t h _ alive used spare)
      by_sweep Sweep.steal e other spare =
          let (alive, unused) = steal_live here _ refl e in
          rw (e, evict_from) (at_steal n t h alive unused)
