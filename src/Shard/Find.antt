-- ===== src/Shard/Find.antt =====
-- `_shard_find` of src/voidcache.c against a plain search of the whole table.
use void_cache.Prelude.{
  ℕ, zero, suc, ◌<◌, ◌≡◌, ◌≢◌, ◌↔◌, ◌↔◌, arith, refl, sym, Bool, true, false, List, none, some,
  if◌then◌else◌, Bool-cases, inl, inr, subst, length,
}
use native.Mathlib.Decide.{ℕ_discrete}
use void_cache.Prelude.Bits.{IsPow2, IsPow2-pos}
use void_cache.Entry.{State, empty, busy, live, dead, Entry, entry_expired, entry_matches}
use void_cache.Shard.Walk.{
  step, gap, step-lt, gap-lt, step_zero, step_next, gap_next, next_slot-step, table_slot-lt,
}
use void_cache.Shard.{Shard, Seen, slot_at, table_slot, next_slot, look, find_from, shard_find}

abbrev pub home : ℕ → Entry → ℕ
home cap e = table_slot e.key_hash cap

-- no slot on the way from the home of `e` to slot `s` is EMPTY
abbrev pub Reaches : ℕ → List Entry → Entry → ℕ → Type 0
Reaches cap t e s =
    (j : ℕ) → j < gap cap (home cap e) s → (slot_at t (step cap (home cap e) j)).state ≢ empty

abbrev pub IsChained : ℕ → List Entry → Type 0
IsChained cap t = (s : ℕ) → s < cap → (slot_at t s).state ≡ live → Reaches cap t (slot_at t s) s

-- the entry is live and has this key
pub record Has (hash : ℕ) (key : List ℕ) (e : Entry) : Type 0 where
  pub is_live : e.state ≡ live
  pub same : entry_matches hash key e ≡ true

-- no two slots have this key
abbrev pub IsUnique : ℕ → List Entry → ℕ → List ℕ → Type 0
IsUnique cap t hash key =
    (i j : ℕ) → i < cap → j < cap → Has hash key (slot_at t i) → Has hash key (slot_at t j) → i ≡ j

module _ (hash : ℕ) (key : List ℕ) (e : Entry) where
  look_hit : Has hash key e → look hash key e e.state ≡ Seen.hit
  unfolding look
  look_hit h = subst (λ x. look hash key e x ≡ Seen.hit) (sym h.is_live) (live_hit h)
    where
      live_hit : Has hash key e → look hash key e live ≡ Seen.hit
      live_hit k = rw k.same

  hit_look : (s : State) → e.state ≡ s → look hash key e s ≡ Seen.hit → Has hash key e
  unfolding look
  hit_look empty e h = cc
  hit_look busy e h = cc
  hit_look live e h = record { is_live = e; same = ground arith }
  hit_look dead e h = cc

  look_skip :
      (s : State) → e.state ≡ s → s ≢ empty → ¬ Has hash key e → look hash key e s ≡ Seen.skip
  unfolding look
  look_skip empty p ne no_match = absurd (ne refl)
  look_skip busy p ne no_match = refl
  look_skip dead p ne no_match = refl
  look_skip live p ne no_match = elim (Bool-cases (entry_matches hash key e)) [
    | inl y ↦ absurd (no_match (record { is_live = p; same = y }))
    | inr n ↦ rw n
  ]

same_hash :
    (hash : ℕ) (key : List ℕ) (e : Entry) → entry_matches hash key e ≡ true → e.key_hash ≡ hash
unfolding entry_matches
same_hash hash key e h = ground arith

module _ (now : ℕ) (key : List ℕ) (hash cap : ℕ) (t : List Entry) (pow2 : IsPow2 cap) where
  pos : 0 < cap
  pos = IsPow2-pos cap pow2

  find_from-hit :
      (n slot i : ℕ)
      → slot < cap
      → i < cap
      → gap cap slot i < n
      → ((j : ℕ) → j < gap cap slot i → (slot_at t (step cap slot j)).state ≢ empty)
      → IsUnique cap t hash key
      → Has hash key (slot_at t i)
      → find_from now key hash cap t n slot
        ≡ (if entry_expired now (slot_at t i) then none else some i)
  unfolding find_from
  find_from-hit zero slot i hs hi h chain once has = absurd (omega arith)
  find_from-hit (suc n) slot i hs hi h chain once has = elim (ℕ_discrete slot i) [
    | yes p ↦ rw p (rw (look_hit hash key (slot_at t i) has, find_from))
    | no p ↦
        let closer = gap_next cap pos slot i hs hi p in
        let here : (slot_at t slot).state ≢ empty =
          subst (λ x. (slot_at t x).state ≢ empty) (step_zero cap pos slot hs)
            (chain 0 (omega (arith, closer))) in
        let skip =
          look_skip hash key (slot_at t slot) _ refl here
            (λ has'. p (once slot i hs hi has' has)) in
        rw (skip, find_from, next_slot-step slot cap pow2)
          (find_from-hit n (step cap slot 1) i (step-lt cap pos slot 1) hi (omega arith)
            (λ j hj. rw (step_next cap pos slot j) (chain (suc j) (omega arith))) once has)
  ]

  find_from_sound :
      (n slot i : ℕ)
      → slot < cap
      → find_from now key hash cap t n slot ≡ some i
      → (i < cap) × Has hash key (slot_at t i) × (entry_expired now (slot_at t i) ≡ false)
  unfolding find_from
  find_from_sound zero slot i hs h = cc
  find_from_sound (suc n) slot i hs h = at_slot (look hash key (slot_at t slot) _) refl (
      find_from_sound n (next_slot slot cap) i
        (rw (next_slot-step slot cap pow2) (step-lt cap pos slot 1)))
    where
      Found : Type 0
      Found = (i < cap) × Has hash key (slot_at t i) × (entry_expired now (slot_at t i) ≡ false)

      at_hit :
          look hash key (slot_at t slot) (slot_at t slot).state ≡ Seen.hit
          → (b : Bool) → entry_expired now (slot_at t slot) ≡ b
          → (if b then none else some slot) ≡ some i
          → Found
      at_hit e true fresh q = cc
      at_hit e false fresh q =
          let p : slot ≡ i = cc in
          subst
            (λ x.
              (x < cap) × Has hash key (slot_at t x) × (entry_expired now (slot_at t x) ≡ false))
            p (hs, hit_look hash key (slot_at t slot) _ refl e, fresh)

      at_slot :
          (x : Seen)
          → look hash key (slot_at t slot) (slot_at t slot).state ≡ x
          → (find_from now key hash cap t n (next_slot slot cap) ≡ some i → Found)
          → Found
      at_slot Seen.stop e ih = cc (rw (e, find_from) at h)
      at_slot Seen.skip e ih = ih (rw (e, find_from) at h)
      at_slot Seen.hit e ih = at_hit e _ refl (rw (e, find_from) at h)

-- the shape of a table: a power of two of slots, and every live entry can be reached from its home
pub record IsTable (s : Shard) : Type 0 where
  pub pow2 : IsPow2 s.cap
  pub width : length s.table ≡ s.cap
  pub chained : IsChained s.cap s.table

-- Whatever the probe finds is a live slot with the hash and the key that has not expired.
pub shard_find_sound :
    (now : ℕ) (s : Shard) (key : List ℕ) (hash i : ℕ)
    → IsTable s
    → shard_find now s key hash ≡ some i
    → (i < s.cap)
      × Has hash key (slot_at s.table i)
      × (entry_expired now (slot_at s.table i) ≡ false)
unfolding shard_find
shard_find_sound now s key hash i v =
    find_from_sound now key hash s.cap s.table v.pow2 s.cap _ i (table_slot-lt hash s.cap v.pow2)

-- On a table whose number of slots is a power of two, and where no slot between the home of a live
-- entry and its place is EMPTY: if no two live slots have the hash and the key, the probe finds slot
-- `i` exactly when `i` is a live slot with this hash and key that has not expired.
pub shard_find_iff :
    (now : ℕ) (s : Shard) (key : List ℕ) (hash i : ℕ)
    → IsTable s
    → IsUnique s.cap s.table hash key
    → (shard_find now s key hash ≡ some i) ↔ (
        (i < s.cap)
        × Has hash key (slot_at s.table i)
        × (entry_expired now (slot_at s.table i) ≡ false))
unfolding shard_find
shard_find_iff now s key hash i v once = (
  shard_find_sound now s key hash i v,
  λ (hi, has, fresh).
      let same_home = same_hash hash key (slot_at s.table i) has.same in
      rw
        (find_from-hit now key hash s.cap s.table v.pow2 s.cap (table_slot hash s.cap) i
          (table_slot-lt hash s.cap v.pow2) hi (gap-lt s.cap (IsPow2-pos s.cap v.pow2) _ i)
          (rw same_home at (v.chained i hi has.is_live)) once has)
        (rw fresh),
)
