-- ===== src/Shard/Evict/Rounds.antt =====
-- The rounds of a CLOCK sweep: what they keep, what they clear, and when they evict.
use void_cache.Prelude.{
  ℕ, ◌+◌, ◌<◌, ◌≡◌, arith, ◌∙◌, refl, sym, Bool, List, Option, none, some, set, length, length-set,
  subst,
}
use void_cache.Prelude.Bits.{IsPow2, IsPow2-pos}
use void_cache.Entry.{live, dead, Entry}
use void_cache.Shard.{slot_at, next_slot, spared, buried, evict_from}
use void_cache.Shard.Alter.{slot_at-alter_self, IsChained-alter}
use void_cache.Shard.Walk.{step-lt, next_slot-step}
use void_cache.Shard.Contents.{Content, content, to_nat, weight, live_count, live_count-set}
use void_cache.Shard.Find.{IsChained}
use void_cache.Shard.Evict.{evict_rule}

-- what the sweep took, as it counts
abbrev pub taken : (Content → Bool) → Option ℕ × List Entry → ℕ
taken p (none, t) = 0
taken p (some i, t) = to_nat (p (content (slot_at t i)))

-- the slot evicted is marked dead
abbrev pub IsBuried : Option ℕ × List Entry → Type 0
IsBuried (none, t) = Unit {0}
IsBuried (some i, t) = (i < length t) × ((slot_at t i).state ≡ dead)

module _ (cap : ℕ) (pow2 : IsPow2 cap) where
  pos : 0 < cap
  pos = IsPow2-pos cap pow2

  next_in : (h : ℕ) → next_slot h cap < cap
  next_in h = rw (next_slot-step h cap pow2) (step-lt cap pos h 1)

  pub record Swept (t : List Entry) (r : Option ℕ × List Entry) : Type 0 where
    pub width : length r.1 ≡ cap
    pub chained : IsChained cap r.1
    pub counts : (p : Content → Bool) → live_count p r.1 + taken p r ≡ live_count p t
    pub victim : IsBuried r

  module _ (t : List Entry) (i : ℕ) (hi : i < length t) (alive : (slot_at t i).state ≡ live) where
    IsChained-spared : IsChained cap t → IsChained cap (set t i (spared (slot_at t i)))
    IsChained-spared =
        IsChained-alter t i (spared (slot_at t i)) hi cap (λ e. cc (e, alive)) (λ _. (alive, refl))

    IsChained-buried : IsChained cap t → IsChained cap (set t i (buried (slot_at t i)))
    IsChained-buried =
        IsChained-alter t i (buried (slot_at t i)) hi cap (λ e. cc (e)) (λ e. absurd (cc (e)))

    counts-spared :
        (p : Content → Bool) → live_count p (set t i (spared (slot_at t i))) ≡ live_count p t
    counts-spared p = omega (arith, live_count-set p t i (spared (slot_at t i)) hi)

    counts-buried :
        (p : Content → Bool)
        → live_count p (set t i (buried (slot_at t i))) + to_nat (p (content (slot_at t i)))
          ≡ live_count p t
    counts-buried p =
        omega
          (arith, live_count-set p t i (buried (slot_at t i)) hi, is_counted (slot_at t i) alive)
      where
        is_counted : (e : Entry) → e.state ≡ live → weight p e ≡ to_nat (p (content e))
        is_counted e q = ground arith

  pub evict_from-Swept :
      (n : ℕ) (t : List Entry) (h : ℕ)
      → length t ≡ cap
      → IsChained cap t
      → Swept t (evict_from cap n t h)
  evict_from-Swept =
      evict_rule cap (λ n t h r. length t ≡ cap → IsChained cap t → Swept t r)
        (λ t h w chain. record {
          width = w;
          chained = chain;
          counts = λ p. omega arith;
          victim = tt;
        })
        (λ n t h r other rest w chain. rest w chain)
        (λ n t h r alive used rest w chain.
          let i = next_slot h cap in
          let hi : i < length t = omega (arith, next_in h) in
          let swept = rest (length-set t i _ ∙ w) (IsChained-spared t i hi alive chain) in
          record {
            width = swept.width;
            chained = swept.chained;
            counts = λ p. swept.counts p ∙ counts-spared t i hi alive p;
            victim = swept.victim;
          })
        (λ n t h alive unused w chain.
          let i = next_slot h cap in
          let hi : i < length t = omega (arith, next_in h) in
          let self = slot_at-alter_self t i (buried (slot_at t i)) hi in
          record {
            width = length-set t i _ ∙ w;
            chained = IsChained-buried t i hi alive chain;
            counts = λ p.
                subst
                  (λ e.
                    live_count p (set t i (buried (slot_at t i))) + to_nat (p (content e))
                    ≡ live_count p t)
                  (sym self) (counts-buried t i hi alive p);
            victim = (rw length-set hi, subst (λ e. e.state ≡ dead) (sym self) refl);
          })
