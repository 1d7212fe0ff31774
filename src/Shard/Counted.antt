-- ===== src/Shard/Counted.antt =====
-- The invariant of a shard of src/voidcache.c, and that each change of the table keeps it.
use void_cache.Prelude.Bits.{IsPow2}
use void_cache.Prelude.{
  replicate, ap, sym, ℕ, zero, suc, ◌≤◌, ◌<◌, ◌≡◌, ◌≢◌, arith, ◌∙◌, refl, Bool, true, List, [], ◌∷◌,
  Option, none, some, ◌^◌, set, length, length-set, inl, inr,
}
use void_cache.Slab.{Slab}
use void_cache.Entry.{State, empty, busy, live, dead, Entry, zero_entry}
use void_cache.Shard.{
  Shard, slot_at, placed, buried, spared, next_slot, inc32, evict_from, evict_end, insert_from,
  insert_loop, shard_insert, shard_bury, shard_evict_one,
}
use void_cache.Shard.Contents.{
  Content, content, to_nat, weight, live_count, live_count-set, weight_one, live_count-le_length,
}
use void_cache.Shard.Find.{IsTable}
use void_cache.Shard.Alter.{IsChained-alter}
use void_cache.Shard.Lookup.{Adds, shard_insert-Adds}
use void_cache.Shard.Insert.{IsFree, insert_rule}
use void_cache.Shard.Evict.{evict_rule}
use void_cache.Shard.Evict.Sweeps.{Evicts, shard_evict_one-Evicts, cap-shard_evict_one}

abbrev pub any : Content → Bool
any c = true

-- no slot is BUSY
abbrev pub IsIdle : List Entry → Type 0
IsIdle t = (i : ℕ) → (slot_at t i).state ≢ busy

-- a table of the right shape that `count` counts
pub record IsCounted (s : Shard) : Type 0 where
  pub shape : IsTable s
  pub idle : IsIdle s.table
  pub counted : s.count ≡ live_count any s.table
  pub small : s.cap < 2 ^ 32

pub IsIdle-set :
    (t : List Entry) (i : ℕ) (e : Entry) → e.state ≢ busy → IsIdle t → IsIdle (set t i e)
IsIdle-set [] i e h idle j = idle j
IsIdle-set (x ∷ t) zero e h idle zero = h
IsIdle-set (x ∷ t) zero e h idle (suc j) = idle (suc j)
IsIdle-set (x ∷ t) (suc i) e h idle zero = idle 0
IsIdle-set (x ∷ t) (suc i) e h idle (suc j) = IsIdle-set t i e h (λ k. idle (suc k)) j

live-not-busy : (e : Entry) → e.state ≡ live → e.state ≢ busy
live-not-busy e p q = cc

insert_from-IsIdle :
    (cap n : ℕ) (t : List Entry) (x : Entry) (slot : ℕ)
    → IsIdle t
    → IsIdle (insert_from cap n t x slot).0
insert_from-IsIdle cap =
    insert_rule cap (λ n t x slot r. IsIdle t → IsIdle r.0) (λ t x slot h. h)
      (λ n t x slot free h. IsIdle-set t slot (placed x) (λ q. cc) h)
      (λ n t x slot r alive rest h. rest (IsIdle-set t slot (placed x) (λ q. cc) h))
      (λ n t x slot r taken rest h. rest h)

evict_from-IsIdle :
    (cap n : ℕ) (t : List Entry) (h : ℕ) → IsIdle t → IsIdle (evict_from cap n t h).1
evict_from-IsIdle cap =
    evict_rule cap (λ n t h r. IsIdle t → IsIdle r.1) (λ t h idle. idle)
      (λ n t h r other rest idle. rest idle)
      (λ n t h r alive used rest idle. rest (
        IsIdle-set t (next_slot h cap) (spared (slot_at t (next_slot h cap)))
          (live-not-busy (slot_at t (next_slot h cap)) alive) idle))
      (λ n t h alive unused idle.
        IsIdle-set t (next_slot h cap) (buried (slot_at t (next_slot h cap))) (λ q. cc) idle)

-- a table that is not full of live entries has another slot
not_live :
    (t : List Entry)
    → live_count any t < length t
    → (i : ℕ) × (i < length t) × ((slot_at t i).state ≢ live)
unfolding live_count
not_live [] h = absurd (omega arith)
not_live (x ∷ t) h = at_head x.state refl (not_live t)
  where
    at_head :
        (s : State)
        → x.state ≡ s
        → (live_count any t < length t → (i : ℕ) × (i < length t) × ((slot_at t i).state ≢ live))
        → (i : ℕ) × (i < length (x ∷ t)) × ((slot_at (x ∷ t) i).state ≢ live)
    at_head empty e later = (0, omega arith, λ q. cc)
    at_head busy e later = (0, omega arith, λ q. cc)
    at_head dead e later = (0, omega arith, λ q. cc)
    at_head live e later =
        let one : weight any x ≡ 1 = weight_one any x e refl in
        let (i, hi, no_live) = later (omega arith) in (suc i, omega arith, no_live)

IsFree-if : (e : Entry) (s : State) → e.state ≡ s → s ≢ live → s ≢ busy → IsFree e
IsFree-if e empty p l b = inl p
IsFree-if e dead p l b = inr p
IsFree-if e live p l b = absurd (l refl)
IsFree-if e busy p l b = absurd (b refl)

module _ (s : Shard) (v : IsCounted s) where
  pub count-le_cap : s.count ≤ s.cap
  count-le_cap = omega (arith, v.counted, v.shape.width, live_count-le_length any s.table)

  pub IsFree-slot : s.count < s.cap → (i : ℕ) × (i < s.cap) × IsFree (slot_at s.table i)
  IsFree-slot h =
      let (i, hi, no_live) = not_live s.table (omega (arith, v.counted, v.shape.width)) in
      (i, omega (arith, v.shape.width), IsFree-if (slot_at s.table i) _ refl no_live (v.idle i))

-- The invariant reads the table and its count alone.
pub IsCounted-locks :
    (s : Shard) (seq wlock hits misses sets : ℕ)
    → IsCounted s
    → IsCounted (record s { seq = seq; wlock = wlock; hits = hits; misses = misses; sets = sets })
IsCounted-locks s seq wlock hits misses sets v = record {
  shape = record { pow2 = v.shape.pow2; width = v.shape.width; chained = v.shape.chained };
  idle = v.idle;
  counted = v.counted;
  small = v.small;
}

module _ (s : Shard) (sl : Slab) (i : ℕ) (hi : i < s.cap)
    (alive : (slot_at s.table i).state ≡ live) where
  -- A burial takes the entry of the slot out of the table.
  pub shard_bury-Adds : IsTable s → Adds (shard_bury s sl i).0 (content (slot_at s.table i)) s
  unfolding shard_bury
  shard_bury-Adds v = record {
    old_shape = record {
      pow2 = v.pow2;
      width = length-set s.table i _ ∙ v.width;
      chained =
          IsChained-alter s.table i (buried (slot_at s.table i)) (omega (arith, v.width)) s.cap
            (λ q. cc) (λ q. cc) v.chained;
    };
    new_shape = v;
    counts = λ p. omega (
      arith,
      live_count-set p s.table i (buried (slot_at s.table i)) (omega (arith, v.width)),
      live_weight p,
    );
  }
    where
      live_weight :
          (p : Content → Bool)
          → weight p (slot_at s.table i) ≡ to_nat (p (content (slot_at s.table i)))
      live_weight p = ground arith

  pub shard_bury-IsCounted : IsCounted s → IsCounted (shard_bury s sl i).0
  unfolding shard_bury
  shard_bury-IsCounted v =
      let adds = shard_bury-Adds v.shape in
      record {
        shape = adds.old_shape;
        idle = IsIdle-set s.table i (buried (slot_at s.table i)) (λ q. cc) v.idle;
        counted = omega (arith, adds.counts any, v.counted, v.small, count-le_cap s v);
        small = v.small;
      }

evict_end-IsIdle :
    (s : Shard) (sl : Slab) (r : Option ℕ × List Entry)
    → IsIdle r.1
    → IsIdle (evict_end s sl r.0 r.1).1.table
unfolding evict_end
evict_end-IsIdle s sl (none, t) h = h
evict_end-IsIdle s sl (some k, t) h = h

shard_evict_one-IsIdle :
    (s : Shard) (sl : Slab) → IsIdle s.table → IsIdle (shard_evict_one s sl).1.table
unfolding shard_evict_one
shard_evict_one-IsIdle s sl idle =
    evict_end-IsIdle s sl _ (evict_from-IsIdle s.cap s.cap s.table s.clock_hand idle)

pub shard_evict_one-IsCounted :
    (s : Shard) (sl : Slab) → IsCounted s → IsCounted (shard_evict_one s sl).1
shard_evict_one-IsCounted s sl v =
    by_result (shard_evict_one s sl) (shard_evict_one-Evicts s sl v.shape)
      (cap-shard_evict_one s sl) (shard_evict_one-IsIdle s sl v.idle)
  where
    by_result :
        (r : Option ℕ × Shard × Slab)
        → Evicts s sl r
        → r.1.cap ≡ s.cap
        → IsIdle r.1.table
        → IsCounted r.1
    by_result (none, s', sl') (shape, counts, count, _) width idle = record {
      shape = shape;
      idle = idle;
      counted = omega (arith, counts any, count, v.counted);
      small = omega (arith, width, v.small);
    }
    by_result (some i, s', sl') (adds, _, count, _, _) width idle = record {
      shape = adds.old_shape;
      idle = idle;
      counted = omega (arith, adds.counts any, count, v.counted, v.small, count-le_cap s v);
      small = omega (arith, width, v.small);
    }

-- An insertion into a table that is not full, with the count that `vc_set` then writes.
pub shard_insert-IsCounted :
    (s : Shard) (x : Entry)
    → s.count < s.cap
    → IsCounted s
    → IsCounted (record (shard_insert s x) { count = inc32 (shard_insert s x).count })
unfolding shard_insert insert_loop
shard_insert-IsCounted s x room v =
    let (i, hi, free) = IsFree-slot s v room in
    let adds = shard_insert-Adds s x i v.shape hi free in
    let idle = insert_from-IsIdle s.cap s.cap s.table (record x { probe_dist = 0 }) _ v.idle in
    record {
      shape = record {
        pow2 = adds.new_shape.pow2;
        width = adds.new_shape.width;
        chained = adds.new_shape.chained;
      };
      idle = idle;
      counted = omega (arith, adds.counts any, v.counted, v.small);
      small = v.small;
    }

slot_at-replicate : (n i : ℕ) → slot_at (replicate n zero_entry) i ≡ zero_entry
slot_at-replicate zero i = refl
slot_at-replicate (suc n) zero = refl
slot_at-replicate (suc n) (suc i) = slot_at-replicate n i

-- A zeroed table holds nothing.
pub live_count-replicate : (p : Content → Bool) (n : ℕ) → live_count p (replicate n zero_entry) ≡ 0
unfolding live_count
live_count-replicate p zero = refl
live_count-replicate p (suc n) = omega (arith, live_count-replicate p n)

length-zeroed : (n : ℕ) → length (replicate n zero_entry) ≡ n
length-zeroed zero = refl
length-zeroed (suc n) = ap suc (length-zeroed n)

empty-not-live : empty ≢ live
empty-not-live q = cc

empty-not-busy : empty ≢ busy
empty-not-busy q = cc

-- A zeroed shard satisfies the invariant.
pub zeroed-IsCounted :
    (s : Shard)
    → IsPow2 s.cap
    → s.cap < 2 ^ 32
    → s.table ≡ replicate s.cap zero_entry
    → s.count ≡ 0
    → IsCounted s
zeroed-IsCounted s pow2 small zeroed none_counted = record {
  shape = record {
    pow2 = pow2;
    width = ap length zeroed ∙ length-zeroed s.cap;
    chained = λ i hi alive. absurd (not_live_here i alive);
  };
  idle = idle_here;
  counted = none_counted ∙ sym (ap (live_count any) zeroed ∙ live_count-replicate any s.cap);
  small = small;
}
  where
    slot : (i : ℕ) → slot_at s.table i ≡ zero_entry
    slot i = ap (λ t. slot_at t i) zeroed ∙ slot_at-replicate s.cap i

    not_live_here : (i : ℕ) → (slot_at s.table i).state ≢ live
    not_live_here i alive = empty-not-live (rw (slot i) at alive)

    idle_here : IsIdle s.table
    idle_here i q = empty-not-busy (rw (slot i) at q)
