-- ===== src/Shard/Walk.antt =====
-- The order in which src/voidcache.c walks the slots of a table: from a key's home slot, round
-- the end of the table.
use void_cache.Prelude.{ℕ, zero, suc, sym, ◌+◌, ◌-◌, ◌%◌, ◌≤◌, ◌<◌, ◌≡◌, ◌≢◌, arith, ◌∙◌, refl, ap}
use native.Mathlib.Nat.{mod-add-mod, mod-lt}
use void_cache.Prelude.Bits.{IsPow2, IsPow2-pos, mask-mod}
use void_cache.Shard.{next_slot, table_slot}

-- the slot `j` steps behind `from`
abbrev pub step : ℕ → ℕ → ℕ → ℕ
step cap from j = (from + j) % cap

-- the number of steps from `from` to `to`
abbrev pub gap : ℕ → ℕ → ℕ → ℕ
gap cap from to = (to + cap - from) % cap

module _ (cap : ℕ) (pos : 0 < cap) where
  pub step-lt : (from j : ℕ) → step cap from j < cap
  step-lt from j = omega arith

  pub gap-lt : (from to : ℕ) → gap cap from to < cap
  gap-lt from to = omega arith

  pub gap_self : (s : ℕ) → gap cap s s ≡ 0
  gap_self s = grind arith

  pub step_zero : (s : ℕ) → s < cap → step cap s 0 ≡ s
  step_zero s h = grind arith

  pub step-gap : (from to : ℕ) → from < cap → to < cap → step cap from (gap cap from to) ≡ to
  step-gap from to hf ht = grind arith

  pub gap-step : (from j : ℕ) → from < cap → j < cap → gap cap from (step cap from j) ≡ j
  gap-step from j hf hj = grind arith

  pub step_next : (from j : ℕ) → step cap (step cap from 1) j ≡ step cap from (suc j)
  step_next from j = mod-add-mod (from + 1) cap j ∙ ap (λ x. x % cap) (omega arith)

  pub step-ne : (s j : ℕ) → s < cap → 0 < j → j < cap → step cap s j ≢ s
  step-ne s j hs h hj = grind arith

  pub gap_next :
      (from to : ℕ)
      → from < cap
      → to < cap
      → from ≢ to
      → gap cap from to ≡ gap cap (step cap from 1) to + 1
  gap_next from to hf ht ne = count_down (gap cap from to) refl
    where
      count_down :
          (j : ℕ) → gap cap from to ≡ j → gap cap from to ≡ gap cap (step cap from 1) to + 1
      count_down zero e =
          let back = step-gap from to hf ht in absurd (ne (sym (step_zero from hf) ∙ rw e at back))
      count_down (suc j) e =
          let back = step-gap from to hf ht in
          let short = gap-lt from to in
          let there : step cap (step cap from 1) j ≡ to = step_next from j ∙ (rw e at back) in
          let rest = gap-step (step cap from 1) j (step-lt from 1) (omega arith) in
          e ∙ omega (arith, rw there at rest)

  pub gap-le_next :
      (from s : ℕ) → from < cap → s < cap → gap cap from (step cap s 1) ≤ gap cap from s + 1
  gap-le_next from s hf hs = grind arith

pub next_slot-step : (s cap : ℕ) → IsPow2 cap → next_slot s cap ≡ step cap s 1
unfolding next_slot
next_slot-step s cap p = mask-mod (s + 1) cap p

pub table_slot-lt : (h cap : ℕ) → IsPow2 cap → table_slot h cap < cap
unfolding table_slot
table_slot-lt h cap p = rw (mask-mod h cap p) (mod-lt h (IsPow2-pos cap p))
