-- ===== src/Shard/Insert.antt =====
-- `_shard_insert` of src/voidcache.c: what one round does, and the rule for all rounds.
pub mod Keep
pub mod Total
use void_cache.Prelude.{
  ℕ, zero, suc, ◌+◌, ◌<◌, ◌≡◌, ◌≢◌, ◌⊎◌, arith, refl, Bool, true, false, List, Option, none, some,
  set, ltb, ◌%◌, ◌^◌, if◌then◌else◌, Bool-cases, inl, inr,
}
use void_cache.Entry.{State, empty, busy, live, dead, Entry}
use void_cache.Shard.{Move, slot_at, next_slot, placed, farther, move_at, insert_from}

-- EMPTY or DEAD
abbrev pub IsFree : Entry → Type 0
IsFree e = (e.state ≡ empty) ⊎ (e.state ≡ dead)

-- LIVE or BUSY
abbrev pub IsTaken : Entry → Type 0
IsTaken e = (e.state ≡ live) ⊎ (e.state ≡ busy)

module _ (e incoming : Entry) where
  take_IsFree : (s : State) → e.state ≡ s → move_at e incoming s ≡ Move.take_it → IsFree e
  unfolding move_at
  take_IsFree empty p h = inl p
  take_IsFree dead p h = inr p
  take_IsFree busy p h = cc
  take_IsFree live p h = ground (arith, h)

  swap_live : (s : State) → e.state ≡ s → move_at e incoming s ≡ Move.swap → e.state ≡ live
  unfolding move_at
  swap_live empty p h = cc
  swap_live dead p h = cc
  swap_live busy p h = cc
  swap_live live p h = p

  pass_IsTaken : (s : State) → e.state ≡ s → move_at e incoming s ≡ Move.pass → IsTaken e
  unfolding move_at
  pass_IsTaken empty p h = cc
  pass_IsTaken dead p h = cc
  pass_IsTaken busy p h = inr p
  pass_IsTaken live p h = inl p

-- Induction over the rounds: a round takes a free slot, swaps with a live entry, or passes.
module _ (cap : ℕ) (P : ℕ → List Entry → Entry → ℕ → List Entry × Option Entry → Type 0)
    (at_end : (t : List Entry) (x : Entry) (slot : ℕ) → P 0 t x slot (t, some x))
    (at_free : (n : ℕ) (t : List Entry) (x : Entry) (slot : ℕ)
      → IsFree (slot_at t slot)
      → P (suc n) t x slot (set t slot (placed x), none))
    (at_swap : (n : ℕ) (t : List Entry) (x : Entry) (slot : ℕ) (r : List Entry × Option Entry)
      → (slot_at t slot).state ≡ live
      → P n (set t slot (placed x)) (farther (slot_at t slot)) (next_slot slot cap) r
      → P (suc n) t x slot r)
    (at_pass : (n : ℕ) (t : List Entry) (x : Entry) (slot : ℕ) (r : List Entry × Option Entry)
      → IsTaken (slot_at t slot)
      → P n t (farther x) (next_slot slot cap) r
      → P (suc n) t x slot r) where
  pub insert_rule :
      (n : ℕ) (t : List Entry) (x : Entry) (slot : ℕ) → P n t x slot (insert_from cap n t x slot)
  unfolding insert_from
  insert_rule zero t x slot = at_end t x slot
  insert_rule (suc n) t x slot =
      by_move (move_at (slot_at t slot) x _) refl
        (insert_rule n (set t slot (placed x)) (farther (slot_at t slot)) (next_slot slot cap))
        (insert_rule n t (farther x) (next_slot slot cap))
    where
      by_move :
          (m : Move)
          → move_at (slot_at t slot) x (slot_at t slot).state ≡ m
          → P n (set t slot (placed x)) (farther (slot_at t slot)) (next_slot slot cap) (
              insert_from cap n
                (set t slot (placed x))
                (farther (slot_at t slot))
                (next_slot slot cap))
          → P n t
              (farther x)
              (next_slot slot cap)
              (insert_from cap n t (farther x) (next_slot slot cap))
          → P (suc n) t x slot (insert_from cap (suc n) t x slot)
      by_move Move.take_it e swap pass =
          rw (e, insert_from) (at_free n t x slot (take_IsFree _ x _ refl e))
      by_move Move.swap e swap pass =
          rw (e, insert_from) (at_swap n t x slot _ (swap_live _ x _ refl e) swap)
      by_move Move.pass e swap pass =
          rw (e, insert_from) (at_pass n t x slot _ (pass_IsTaken _ x _ refl e) pass)
