-- ===== src/Shard/Insert/Total.antt =====
-- An insertion adds one entry and loses none, if one slot of the table is free; in a table with
-- no free slot one entry is left over.
use void_cache.Prelude.{
  ℕ, zero, suc, ◌+◌, ◌≤◌, ◌<◌, ◌≡◌, ◌≢◌, arith, ◌∙◌, refl, sym, Bool, List, Option, none, some, set,
  length, length-set, subst, inl, inr,
}
use native.Mathlib.Decide.{ℕ_discrete}
use void_cache.Prelude.Bits.{IsPow2, IsPow2-pos}
use void_cache.Entry.{live, Entry}
use void_cache.Shard.{
  Shard, slot_at, next_slot, table_slot, placed, insert_from, insert_loop, shard_insert,
}
use void_cache.Shard.Walk.{
  step, step-lt, step_zero, step_next, step-ne, gap, gap-lt, step-gap, next_slot-step,
  table_slot-lt,
}
use void_cache.Shard.Contents.{Content, content, to_nat, weight, live_count, live_count-set}
use void_cache.Shard.Find.{IsTable}
use void_cache.Shard.Insert.{IsFree, IsTaken, insert_rule}
use void_cache.Shard.Insert.Keep.{slot_at-set_self, slot_at-set_ne}

-- the entry left over, as it counts
abbrev pub left_over : (Content → Bool) → Option Entry → ℕ
left_over p none = 0
left_over p (some e) = to_nat (p (content e))

module _ (cap : ℕ) (pow2 : IsPow2 cap) where
  pos : 0 < cap
  pos = IsPow2-pos cap pow2

  next_in : (slot : ℕ) → next_slot slot cap < cap
  next_in slot = rw (next_slot-step slot cap pow2) (step-lt cap pos slot 1)

  insert_from-live_count :
      (p : Content → Bool) (n : ℕ) (t : List Entry) (x : Entry) (slot : ℕ)
      → length t ≡ cap
      → slot < cap
      → live_count p (insert_from cap n t x slot).0 + left_over p (insert_from cap n t x slot).1
        ≡ live_count p t + to_nat (p (content x))
  insert_from-live_count p =
      insert_rule cap
        (λ n t x slot r.
          length t ≡ cap
          → slot < cap
          → live_count p r.0 + left_over p r.1 ≡ live_count p t + to_nat (p (content x)))
        (λ t x slot w h. refl)
        (λ n t x slot free w h. omega (
          arith,
          live_count-set p t slot (placed x) (omega arith),
          free_weight (slot_at t slot) free,
        ))
        (λ n t x slot r alive rest w h. omega (
          arith,
          live_count-set p t slot (placed x) (omega arith),
          live_weight (slot_at t slot) alive,
          rest (length-set t slot (placed x) ∙ w) (next_in slot),
        ))
        (λ n t x slot r taken rest w h. rest w (next_in slot))
    where
      free_weight : (e : Entry) → IsFree e → weight p e ≡ 0
      free_weight e (inl q) = ground arith
      free_weight e (inr q) = ground arith

      live_weight : (e : Entry) → e.state ≡ live → weight p e ≡ to_nat (p (content e))
      live_weight e q = ground arith

  free-not-live : (e : Entry) → IsFree e → e.state ≢ live
  free-not-live e (inl p) q = cc
  free-not-live e (inr p) q = cc

  free-not-IsTaken : (e : Entry) → IsFree e → ¬ IsTaken e
  free-not-IsTaken e (inl p) (inl q) = cc
  free-not-IsTaken e (inl p) (inr q) = cc
  free-not-IsTaken e (inr p) (inl q) = cc
  free-not-IsTaken e (inr p) (inr q) = cc

  -- one of the next `n` slots is free
  abbrev FreeAhead : ℕ → List Entry → ℕ → Type 0
  FreeAhead n t slot = (j : ℕ) × (j < n) × IsFree (slot_at t (step cap slot j))

  FreeAhead-next :
      (n : ℕ) (t : List Entry) (slot : ℕ)
      → slot < cap
      → IsTaken (slot_at t slot)
      → FreeAhead (suc n) t slot
      → FreeAhead n t (next_slot slot cap)
  FreeAhead-next n t slot h taken (zero, hj, free) = absurd (
      free-not-IsTaken (slot_at t slot)
        (subst (λ k. IsFree (slot_at t k)) (step_zero cap pos slot h) free) taken)
  FreeAhead-next n t slot h taken (suc j, hj, free) =
      (j, omega arith, rw (next_slot-step slot cap pow2, step_next cap pos slot j) free)

  FreeAhead-set :
      (n : ℕ) (t : List Entry) (x : Entry) (slot : ℕ)
      → slot < length t
      → slot < cap
      → n < cap
      → FreeAhead n t (next_slot slot cap)
      → FreeAhead n (set t slot (placed x)) (next_slot slot cap)
  FreeAhead-set n t x slot ht h hn (j, hj, free) =
      let there : step cap (next_slot slot cap) j ≡ step cap slot (suc j) =
        rw (next_slot-step slot cap pow2) (step_next cap pos slot j) in
      let other : slot ≢ step cap (next_slot slot cap) j =
        λ e. step-ne cap pos slot (suc j) h (omega arith) (omega arith) (sym (e ∙ there)) in
      (j, hj, subst IsFree (sym (slot_at-set_ne t slot x ht _ other)) free)

  -- a free slot within the rounds that are left takes the last entry in hand
  insert_from-none :
      (n : ℕ) (t : List Entry) (x : Entry) (slot : ℕ)
      → length t ≡ cap
      → slot < cap
      → n ≤ cap
      → FreeAhead n t slot
      → (insert_from cap n t x slot).1 ≡ none
  insert_from-none =
      insert_rule cap
        (λ n t x slot r. length t ≡ cap → slot < cap → n ≤ cap → FreeAhead n t slot → r.1 ≡ none)
        (λ t x slot w h hn ahead. absurd (omega (arith, ahead.1)))
        (λ n t x slot here w h hn ahead. refl)
        (λ n t x slot r alive rest w h hn ahead.
          rest (length-set t slot (placed x) ∙ w) (next_in slot) (omega arith) (
            FreeAhead-set n t x slot (omega arith) h hn
              (FreeAhead-next n t slot h (inl alive) ahead)))
        (λ n t x slot r taken rest w h hn ahead.
          rest w (next_in slot) (omega arith) (FreeAhead-next n t slot h taken ahead))

  -- no slot is free: the rounds end with an entry in hand
  insert_from-some :
      (n : ℕ) (t : List Entry) (x : Entry) (slot : ℕ)
      → length t ≡ cap
      → slot < cap
      → ((i : ℕ) → i < cap → (slot_at t i).state ≡ live)
      → (e : Entry) × ((insert_from cap n t x slot).1 ≡ some e)
  insert_from-some =
      insert_rule cap
        (λ n t x slot r.
          length t ≡ cap
          → slot < cap
          → ((i : ℕ) → i < cap → (slot_at t i).state ≡ live)
          → (e : Entry) × (r.1 ≡ some e))
        (λ t x slot w h full. (x, refl))
        (λ n t x slot free w h full. absurd (free-not-live (slot_at t slot) free (full slot h)))
        (λ n t x slot r alive rest w h full.
          rest (length-set t slot (placed x) ∙ w) (next_in slot)
            (λ i hi. full-set t x slot (omega arith) i (full i hi)))
        (λ n t x slot r taken rest w h full. rest w (next_in slot) full)
    where
      full-set :
          (t : List Entry) (x : Entry) (slot : ℕ)
          → slot < length t
          → (i : ℕ) → (slot_at t i).state ≡ live
          → (slot_at (set t slot (placed x)) i).state ≡ live
      full-set t x slot ht i alive = elim (ℕ_discrete slot i) [
        | no q ↦ rw (slot_at-set_ne t slot x ht i q) alive
        | yes q ↦
            subst (λ k. (slot_at (set t slot (placed x)) k).state ≡ live) q
              (subst (λ e. e.state ≡ live) (sym (slot_at-set_self t slot x ht)) refl)
      ]

module _ (s : Shard) (x : Entry) (v : IsTable s) where
  abbrev in_hand : Entry
  in_hand = record x { probe_dist = 0 }

  -- In a table of the right shape with a free slot, an insertion adds the entry and keeps every
  -- other: of each kind of contents there are as many live entries as before, and one more of the
  -- kinds of the new entry.
  pub shard_insert-live_count :
      (p : Content → Bool) (i : ℕ)
      → i < s.cap
      → IsFree (slot_at s.table i)
      → live_count p (shard_insert s x).table ≡ live_count p s.table + to_nat (p (content x))
  unfolding shard_insert insert_loop
  shard_insert-live_count p i hi free =
      let h = table_slot-lt x.key_hash s.cap v.pow2 in
      let there = step-gap s.cap (IsPow2-pos s.cap v.pow2) (table_slot x.key_hash s.cap) i h hi in
      let law = insert_from-live_count s.cap v.pow2 p s.cap s.table in_hand _ v.width h in
      let nothing = insert_from-none s.cap v.pow2 s.cap s.table in_hand _ v.width h (omega arith) (
        gap s.cap (table_slot x.key_hash s.cap) i,
        gap-lt s.cap (IsPow2-pos s.cap v.pow2) _ i,
        rw there free,
      ) in
      omega (arith, rw nothing at law)
