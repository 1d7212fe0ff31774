-- ===== src/Shard/Contents.antt =====
-- What a table holds, without the places and the bookkeeping of its slots: how many live entries
-- of a kind there are.
use void_cache.Prelude.{
  ℕ, zero, suc, ◌+◌, ◌≤◌, ◌<◌, ◌≡◌, arith, Bool, true, false, List, [], ◌∷◌, set, length,
}
use native.Mathlib.Decide.{dec_lt}
use void_cache.Entry.{State, empty, busy, live, dead, Entry, Payload}
use void_cache.Shard.{slot_at}

-- what `_shard_insert` carries from slot to slot and `_shard_find` reads
pub record Content : Type 0 where
  pub val_len : ℕ
  pub key_len : ℕ
  pub key_hash : ℕ
  pub expire_ns : ℕ
  pub payload : Payload

abbrev pub content : Entry → Content
content e = record {
  val_len = e.val_len;
  key_len = e.key_len;
  key_hash = e.key_hash;
  expire_ns = e.expire_ns;
  payload = e.payload;
}

abbrev pub to_nat : Bool → ℕ
to_nat true = 1
to_nat false = 0

abbrev pub if_live : State → ℕ → ℕ
if_live live n = n
if_live empty n = 0
if_live busy n = 0
if_live dead n = 0

module _ (p : Content → Bool) where
  -- an entry counts if it is live and of the kind `p`
  abbrev pub weight : Entry → ℕ
  weight e = if_live e.state (to_nat (p (content e)))

  unfoldable pub live_count : List Entry → ℕ
  live_count [] = 0
  live_count (e ∷ es) = weight e + live_count es

  pub live_count-set :
      (t : List Entry) (i : ℕ) (e : Entry)
      → i < length t
      → live_count (set t i e) + weight (slot_at t i) ≡ live_count t + weight e
  unfolding live_count
  live_count-set [] i e h = absurd (omega arith)
  live_count-set (x ∷ t) zero e h = omega arith
  live_count-set (x ∷ t) (suc i) e h = omega (arith, live_count-set t i e (omega arith))

  pub weight-le_one : (e : Entry) → weight e ≤ 1
  weight-le_one e = ground arith

  pub live_count-le_length : (t : List Entry) → live_count t ≤ length t
  unfolding live_count
  live_count-le_length [] = omega arith
  live_count-le_length (x ∷ t) = omega (arith, live_count-le_length t, weight-le_one x)

  pub weight-le_live_count :
      (t : List Entry) (i : ℕ) → i < length t → weight (slot_at t i) ≤ live_count t
  unfolding live_count
  weight-le_live_count [] i h = absurd (omega arith)
  weight-le_live_count (x ∷ t) zero h = omega arith
  weight-le_live_count (x ∷ t) (suc i) h = omega (arith, weight-le_live_count t i (omega arith))

  weight_pos : (e : Entry) → 0 < weight e → (e.state ≡ live) × (p (content e) ≡ true)
  weight_pos e h = ground arith

  -- a live entry of the kind, where there is one
  pub live_at :
      (t : List Entry)
      → 0 < live_count t
      → (i : ℕ) × (i < length t) × ((slot_at t i).state ≡ live) × (p (content (slot_at t i)) ≡ true)
  unfolding live_count
  live_at [] h = absurd (omega arith)
  live_at (x ∷ t) h = here_or_later (dec_lt 0 (weight x)) (live_at t)
    where
      Live : Type 0
      Live =
          (i : ℕ) × (i < length (x ∷ t))
          × ((slot_at (x ∷ t) i).state ≡ live)
          × (p (content (slot_at (x ∷ t) i)) ≡ true)

      here_or_later :
          Dec (0 < weight x)
          → (0 < live_count t
              → (i : ℕ) × (i < length t)
                × ((slot_at t i).state ≡ live)
                × (p (content (slot_at t i)) ≡ true))
          → Live
      here_or_later (yes w) later = (0, omega arith, (weight_pos x w).0, (weight_pos x w).1)
      here_or_later (no w) later =
          let (i, hi, alive, is_p) = later (omega arith) in (suc i, omega arith, alive, is_p)

  -- two slots of the kind make two of the kind
  two_slots :
      (t : List Entry) (i j : ℕ)
      → i < j
      → j < length t
      → weight (slot_at t i) + weight (slot_at t j) ≤ live_count t
  unfolding live_count
  two_slots [] i j h hj = absurd (omega arith)
  two_slots (x ∷ t) i zero h hj = absurd (omega arith)
  two_slots (x ∷ t) zero (suc j) h hj = omega (arith, weight-le_live_count t j (omega arith))
  two_slots (x ∷ t) (suc i) (suc j) h hj =
      omega (arith, two_slots t i j (omega arith) (omega arith))

  pub weight_one : (e : Entry) → e.state ≡ live → p (content e) ≡ true → weight e ≡ 1
  weight_one e alive is_p = ground arith

  -- where there is at most one of the kind, it stands in one slot
  pub one_slot :
      (t : List Entry)
      → live_count t ≤ 1
      → (i j : ℕ) → i < length t
      → j < length t
      → (slot_at t i).state ≡ live
      → p (content (slot_at t i)) ≡ true
      → (slot_at t j).state ≡ live
      → p (content (slot_at t j)) ≡ true
      → i ≡ j
  one_slot t few i j hi hj ai pi aj pj =
      let wi = weight_one (slot_at t i) ai pi in
      let wj = weight_one (slot_at t j) aj pj in
      elim (dec_lt i j) [
        | yes q ↦ absurd (omega (arith, two_slots t i j q hj, wi, wj))
        | no q ↦ elim (dec_lt j i) [
          | yes r ↦ absurd (omega (arith, two_slots t j i r hi, wi, wj))
          | no r ↦ omega arith
        ]
      ]

pub live_count_mono :
    (p q : Content → Bool)
    → ((c : Content) → p c ≡ true → q c ≡ true)
    → (t : List Entry) → live_count p t ≤ live_count q t
unfolding live_count
live_count_mono p q h [] = omega arith
live_count_mono p q h (e ∷ t) = omega (arith, live_count_mono p q h t, weight_mono e.state)
  where
    weight_mono :
        (s : State) → if_live s (to_nat (p (content e))) ≤ if_live s (to_nat (q (content e)))
    weight_mono live = ground (arith, h (content e))
    weight_mono empty = omega arith
    weight_mono busy = omega arith
    weight_mono dead = omega arith
