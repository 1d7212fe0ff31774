-- ===== src/Shard/Alter.antt =====
-- A write to one slot of a table that does not empty it.
use void_cache.Prelude.{
  ℕ, ◌<◌, ◌≡◌, ◌≢◌, sym, List, set, length, get_or-set_self, get_or-set_ne, subst,
}
use native.Mathlib.Decide.{ℕ_discrete}
use void_cache.Entry.{empty, live, Entry, zero_entry}
use void_cache.Shard.{slot_at}
use void_cache.Shard.Find.{Reaches, IsChained}

module _ (t : List Entry) (i : ℕ) (e : Entry) (in_range : i < length t) where
  pub slot_at-alter_self : slot_at (set t i e) i ≡ e
  slot_at-alter_self = get_or-set_self t i e zero_entry in_range

  pub slot_at-alter_ne : (j : ℕ) → i ≢ j → slot_at (set t i e) j ≡ slot_at t j
  slot_at-alter_ne j ne = get_or-set_ne t i j e zero_entry ne

  -- what holds of the entry written, and of the old entry elsewhere, holds of every new one
  pub alter_cases :
      (P : ℕ → Entry → Type 0)
      → P i e
      → ((j : ℕ) → i ≢ j → P j (slot_at t j))
      → (j : ℕ) → P j (slot_at (set t i e) j)
  alter_cases P new old j = elim (ℕ_discrete i j) [
    | no q ↦ subst (P j) (sym (slot_at-alter_ne j q)) (old j q)
    | yes q ↦ subst (λ k. P k (slot_at (set t i e) k)) q (subst (P i) (sym slot_at-alter_self) new)
  ]

  -- A slot that keeps its hash, or is not live any more, keeps the table chained.
  pub IsChained-alter :
      (cap : ℕ)
      → e.state ≢ empty
      → (e.state ≡ live → ((slot_at t i).state ≡ live) × (e.key_hash ≡ (slot_at t i).key_hash))
      → IsChained cap t
      → IsChained cap (set t i e)
  IsChained-alter cap full same chain =
      alter_cases (λ s x. s < cap → x.state ≡ live → Reaches cap (set t i e) x s)
        (λ hi alive j hj.
          let (old_live, hash) = same alive in filled _ (rw (← hash) at (chain i hi old_live) j hj))
        (λ s ne hs alive j hj. filled _ (chain s hs alive j hj))
    where
      filled : (j : ℕ) → (slot_at t j).state ≢ empty → (slot_at (set t i e) j).state ≢ empty
      filled j =
          alter_cases (λ k x. (slot_at t k).state ≢ empty → x.state ≢ empty) (λ _. full)
            (λ k _ h. h) j
