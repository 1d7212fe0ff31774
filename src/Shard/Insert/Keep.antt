-- ===== src/Shard/Insert/Keep.antt =====
-- An insertion keeps the shape of the table.
use void_cache.Prelude.{
  ℕ, ◌<◌, ◌≡◌, ◌≢◌, arith, ◌∙◌, sym, List, set, length, length-set, get_or-set_self, get_or-set_ne,
  subst, inl, inr,
}
use native.Mathlib.Decide.{ℕ_discrete, dec_lt}
use void_cache.Prelude.Bits.{IsPow2, IsPow2-pos}
use void_cache.Entry.{empty, live, Entry, zero_entry}
use void_cache.Shard.{
  Shard, slot_at, next_slot, table_slot, placed, farther, insert_from, shard_insert, insert_loop,
}
use void_cache.Shard.Walk.{
  step, gap, gap_self, step-gap, gap-le_next, next_slot-step, step-lt, table_slot-lt,
}
use void_cache.Shard.Find.{home, Reaches, IsChained, IsTable}
use void_cache.Shard.Insert.{IsTaken, insert_rule}

pub taken-nonempty : (e : Entry) → IsTaken e → e.state ≢ empty
taken-nonempty e (inl p) = cc
taken-nonempty e (inr p) = cc

module _ (t : List Entry) (slot : ℕ) (x : Entry) (in_range : slot < length t) where
  pub slot_at-set_self : slot_at (set t slot (placed x)) slot ≡ placed x
  slot_at-set_self = get_or-set_self t slot (placed x) zero_entry in_range

  pub slot_at-set_ne : (i : ℕ) → slot ≢ i → slot_at (set t slot (placed x)) i ≡ slot_at t i
  slot_at-set_ne i ne = get_or-set_ne t slot i (placed x) zero_entry ne

  set-nonempty :
      (i : ℕ) → (slot_at t i).state ≢ empty → (slot_at (set t slot (placed x)) i).state ≢ empty
  set-nonempty i h = elim (ℕ_discrete slot i) [
    | no p ↦ rw (slot_at-set_ne i p) h
    | yes p ↦ λ q.
        cc (
          subst (λ k. (slot_at (set t slot (placed x)) k).state ≡ empty) (sym p) q,
          slot_at-set_self,
        )
  ]

module _ (cap : ℕ) (pow2 : IsPow2 cap) where
  pos : 0 < cap
  pos = IsPow2-pos cap pow2

  -- past a slot that is not EMPTY an entry in hand still reaches the next one
  Reaches-next :
      (t : List Entry) (x : Entry) (slot : ℕ)
      → slot < cap
      → (slot_at t slot).state ≢ empty
      → Reaches cap t x slot
      → Reaches cap t x (next_slot slot cap)
  Reaches-next t x slot hs here r j hj =
      let h = home cap x in
      let hh = table_slot-lt x.key_hash cap pow2 in
      let far = gap-le_next cap pos h slot hh hs in
      let hj' = rw (next_slot-step slot cap pow2) at hj in
      elim (dec_lt j (gap cap h slot)) [
        | yes p ↦ r j p
        | no p ↦
            let last : j ≡ gap cap h slot = omega arith in
            subst (λ k. (slot_at t (step cap h k)).state ≢ empty) (sym last)
              (subst (λ k. (slot_at t k).state ≢ empty) (sym (step-gap cap pos h slot hh hs)) here)
      ]

  IsChained-set :
      (t : List Entry) (x : Entry) (slot : ℕ)
      → slot < length t
      → IsChained cap t
      → Reaches cap t x slot
      → IsChained cap (set t slot (placed x))
  IsChained-set t x slot hs chain r i hi alive = elim (ℕ_discrete slot i) [
    | no p ↦
        let q = slot_at-set_ne t slot x hs i p in
        let alive' = subst (λ e. e.state ≡ live) q alive in
        subst (λ e. Reaches cap (set t slot (placed x)) e i) (sym q)
          (λ j hj. set-nonempty t slot x hs _ (chain i hi alive' j hj))
    | yes p ↦
        let t' = set t slot (placed x) in
        subst (λ k. Reaches cap t' (slot_at t' k) k) p
          (subst (λ e. Reaches cap t' e slot) (sym (slot_at-set_self t slot x hs))
            (λ j hj. set-nonempty t slot x hs _ (r j hj)))
  ]

  -- the shape that every round keeps
  record Round (t : List Entry) (x : Entry) (slot : ℕ) : Type 0 where
    width : length t ≡ cap
    slot_in : slot < cap
    chained : IsChained cap t
    reaches : Reaches cap t x slot

  pub record Kept (t : List Entry) : Type 0 where
    pub width : length t ≡ cap
    pub chained : IsChained cap t

  next_in : (slot : ℕ) → next_slot slot cap < cap
  next_in slot = rw (next_slot-step slot cap pow2) (step-lt cap pos slot 1)

  Round-pass :
      (t : List Entry) (x : Entry) (slot : ℕ)
      → IsTaken (slot_at t slot)
      → Round t x slot
      → Round t (farther x) (next_slot slot cap)
  Round-pass t x slot taken k = record {
    width = k.width;
    slot_in = next_in slot;
    chained = k.chained;
    reaches = Reaches-next t x slot k.slot_in (taken-nonempty (slot_at t slot) taken) k.reaches;
  }

  Round-swap :
      (t : List Entry) (x : Entry) (slot : ℕ)
      → (slot_at t slot).state ≡ live
      → Round t x slot
      → Round (set t slot (placed x)) (farther (slot_at t slot)) (next_slot slot cap)
  Round-swap t x slot alive k =
      let in_t : slot < length t = omega (arith, k.width, k.slot_in) in
      let keeps = set-nonempty t slot x in_t in
      let e = slot_at t slot in
      record {
        width = length-set t slot (placed x) ∙ k.width;
        slot_in = next_in slot;
        chained = IsChained-set t x slot in_t k.chained k.reaches;
        reaches =
            Reaches-next (set t slot (placed x)) e slot k.slot_in
              (keeps slot (taken-nonempty e (inl alive)))
              (λ j hj. keeps (step cap (home cap e) j) (k.chained slot k.slot_in alive j hj));
      }

  insert_from-Kept :
      (n : ℕ) (t : List Entry) (x : Entry) (slot : ℕ)
      → Round t x slot
      → Kept (insert_from cap n t x slot).0
  insert_from-Kept =
      insert_rule cap (λ n t x slot r. Round t x slot → Kept r.0)
        (λ t x slot k. record { width = k.width; chained = k.chained })
        (λ n t x slot free k. record {
          width = length-set t slot (placed x) ∙ k.width;
          chained = IsChained-set t x slot (omega (arith, k.width, k.slot_in)) k.chained k.reaches;
        })
        (λ n t x slot r alive rest k. rest (Round-swap t x slot alive k))
        (λ n t x slot r taken rest k. rest (Round-pass t x slot taken k))

-- An insertion keeps the shape of the table, whatever stands in it and however far the rounds go.
pub shard_insert-IsTable : (s : Shard) (x : Entry) → IsTable s → IsTable (shard_insert s x)
unfolding shard_insert insert_loop
shard_insert-IsTable s x v =
    let kept =
      insert_from-Kept s.cap v.pow2 s.cap s.table (record x { probe_dist = 0 }) _
        (record {
          width = v.width;
          slot_in = table_slot-lt x.key_hash s.cap v.pow2;
          chained = v.chained;
          reaches = λ j hj. absurd (
              omega
                (arith, gap_self s.cap (IsPow2-pos s.cap v.pow2) (table_slot x.key_hash s.cap)));
        }) in
    record { pow2 = v.pow2; width = kept.width; chained = kept.chained }
