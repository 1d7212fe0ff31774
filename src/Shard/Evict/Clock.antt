-- ===== src/Shard/Evict/Clock.antt =====
-- When a CLOCK sweep evicts: at once if a live entry has not been used since the last sweep, and
-- at the latest in the second of two sweeps.
use void_cache.Prelude.{
  ℕ, zero, suc, ◌≤◌, ◌<◌, ◌≡◌, ◌≢◌, arith, ◌∙◌, refl, sym, List, Option, none, some, set, length,
  length-set, subst,
}
use void_cache.Prelude.Bits.{IsPow2, IsPow2-pos}
use void_cache.Entry.{live, Entry}
use void_cache.Shard.{slot_at, next_slot, spared, buried, evict_from}
use void_cache.Shard.Alter.{slot_at-alter_self, slot_at-alter_ne}
use void_cache.Shard.Walk.{step, step-lt, step_next, step-ne, next_slot-step}
use void_cache.Shard.Evict.{evict_rule}

-- a live entry that was not used since a sweep passed it
pub record IsRipe (e : Entry) : Type 0 where
  pub is_live : e.state ≡ live
  pub unused : e.clock_bit ≡ 0

-- if live, then ripe
abbrev pub IsCleared : Entry → Type 0
IsCleared e = e.state ≡ live → e.clock_bit ≡ 0

module _ (cap : ℕ) (pow2 : IsPow2 cap) where
  pos : 0 < cap
  pos = IsPow2-pos cap pow2

  -- the slot that the hand meets after `j` others
  abbrev pub met : ℕ → ℕ → ℕ
  met h j = step cap h (suc j)

  next_met : (h : ℕ) → next_slot h cap ≡ met h 0
  next_met h = next_slot-step h cap pow2

  met_next : (h j : ℕ) → met (next_slot h cap) j ≡ met h (suc j)
  met_next h j = rw (next_slot-step h cap pow2) (step_next cap pos h (suc j))

  next_in : (h : ℕ) → next_slot h cap < cap
  next_in h = rw (next_slot-step h cap pow2) (step-lt cap pos h 1)

  -- the hand does not come back to a slot within a round of the table
  met-ne : (h n j : ℕ) → n < cap → j < n → next_slot h cap ≢ met (next_slot h cap) j
  met-ne h n j hn hj e =
      step-ne cap pos (next_slot h cap) (suc j) (next_in h) (omega arith) (omega arith) (sym e)

  -- what a sweep of `n` slots behind `h` does
  pub record Clears (n : ℕ) (t : List Entry) (h : ℕ) (r : Option ℕ × List Entry) : Type 0 where
    pub frame : (i : ℕ) → ((j : ℕ) → j < n → met h j ≢ i) → slot_at r.1 i ≡ slot_at t i
    pub cleared : r.0 ≡ none → (j : ℕ) → j < n → IsCleared (slot_at r.1 (met h j))
    pub ripe : (j : ℕ) → j < n → IsRipe (slot_at t (met h j)) → (k : ℕ) × (r.0 ≡ some k)

  -- the first slot, then the others
  met_cases :
      (n h : ℕ) (P : ℕ → Type 0)
      → P (next_slot h cap)
      → ((j : ℕ) → j < n → P (met (next_slot h cap) j))
      → (j : ℕ) → j < suc n
      → P (met h j)
  met_cases n h P first later zero hj = subst P (next_met h) first
  met_cases n h P first later (suc j) hj = subst P (met_next h j) (later j (omega arith))

  -- a round that leaves the table `u`, with a cleared entry in the slot that it met
  module _ (n : ℕ) (t u : List Entry) (h : ℕ) (r : Option ℕ × List Entry) where
    abbrev i : ℕ
    i = next_slot h cap

    Clears-round :
        n < cap
        → IsCleared (slot_at u i)
        → ¬ IsRipe (slot_at t i)
        → ((k : ℕ) → i ≢ k → slot_at u k ≡ slot_at t k)
        → Clears n u i r
        → Clears (suc n) t h r
    Clears-round hn clear unripe same rest = record {
      frame = λ k far.
          let ne : i ≢ k = λ q. far 0 (omega arith) (sym (next_met h) ∙ q) in
          let later : (j : ℕ) → j < n → met i j ≢ k =
            λ j hj q. far (suc j) (omega arith) (sym (met_next h j) ∙ q) in
          rest.frame k later ∙ same k ne;
      cleared = λ failed.
          met_cases n h (λ k. IsCleared (slot_at r.1 k))
            (subst IsCleared (sym (rest.frame i (λ j hj q. met-ne h n j hn hj (sym q)))) clear)
            (rest.cleared failed);
      ripe =
          met_cases n h (λ k. IsRipe (slot_at t k) → (m : ℕ) × (r.0 ≡ some m))
            (λ q. absurd (unripe q))
            (λ j hj q. rest.ripe j hj (subst IsRipe (sym (same _ (met-ne h n j hn hj))) q));
    }

  pub evict_from-Clears :
      (n : ℕ) (t : List Entry) (h : ℕ)
      → length t ≡ cap
      → n ≤ cap
      → Clears n t h (evict_from cap n t h)
  evict_from-Clears =
      evict_rule cap (λ n t h r. length t ≡ cap → n ≤ cap → Clears n t h r)
        (λ t h w hn. record {
          frame = λ i far. refl;
          cleared = λ failed j hj. absurd (omega arith);
          ripe = λ j hj. absurd (omega arith);
        })
        (λ n t h r other rest w hn.
          Clears-round n t t h r hn (λ alive. absurd (other alive)) (λ q. other q.is_live)
            (λ k ne. refl) (rest w (omega arith)))
        (λ n t h r alive used rest w hn.
          let i = next_slot h cap in
          let hi : i < length t = omega (arith, next_in h) in
          let e = spared (slot_at t i) in
          Clears-round n t (set t i e) h r hn
            (subst IsCleared (sym (slot_at-alter_self t i e hi)) (λ _. refl)) (λ q. used q.unused)
            (slot_at-alter_ne t i e hi) (rest (length-set t i e ∙ w) (omega arith)))
        (λ n t h alive unused w hn.
          let i = next_slot h cap in
          let hi : i < length t = omega (arith, next_in h) in
          record {
            frame = λ k far.
                slot_at-alter_ne t i (buried (slot_at t i)) hi k
                  (λ q. far 0 (omega arith) (sym (next_met h) ∙ q));
            cleared = λ failed. cc;
            ripe = λ j hj q. (i, refl);
          })
