-- ===== src/Shard/Lookup.antt =====
-- A shard as a map: the contents that `_shard_find` leads to, and what an insertion does to them.
use void_cache.Prelude.{
  ℕ, ◌+◌, ◌≤◌, ◌<◌, ◌≡◌, ◌↔◌, ◌⊎◌, arith, refl, sym, ap, Bool, true, false, List, Option, none,
  some, subst, inl, inr, Option-cases, Option_ext,
}
use mathlib.Core.Bool.{decide}
use native.Mathlib.Decide.{ℕ_discrete}
use void_cache.Entry.{live, Entry, entry_matches, entry_expired}
use void_cache.Shard.{Shard, slot_at, shard_find, shard_insert}
use void_cache.Shard.Contents.{
  Content, content, to_nat, live_count, live_at, weight-le_live_count, one_slot, weight_one,
  live_count_mono,
}
use void_cache.Shard.Find.{IsUnique, IsTable, shard_find_iff}
use void_cache.Shard.Insert.{IsFree}
use void_cache.Shard.Insert.Keep.{shard_insert-IsTable}
use void_cache.Shard.Insert.Total.{shard_insert-live_count}

-- an entry with these contents
abbrev pub as_entry : Content → Entry
as_entry c = record {
  state = live;
  val_len = c.val_len;
  key_len = c.key_len;
  key_hash = c.key_hash;
  expire_ns = c.expire_ns;
  clock_bit = 0;
  probe_dist = 0;
  payload = c.payload;
}

unfoldable pub has_key : ℕ → List ℕ → Content → Bool
has_key hash key c = entry_matches hash key (as_entry c)

unfoldable pub expired : ℕ → Content → Bool
expired now c = entry_expired now (as_entry c)

Content-discrete : Discrete Content
Content-discrete = hlevel ℕ_discrete

pub is : Content → Content → Bool
unfolding decide
is c d = decide (Content-discrete d c)

pub is_iff : (c d : Content) → (is c d ≡ true) ↔ (d ≡ c)
unfolding is
is_iff c d = by_decision (Content-discrete d c)
  where
    by_decision : (e : Dec (d ≡ c)) → (decide e ≡ true) ↔ (d ≡ c)
    by_decision (yes p) = (λ _. p, λ _. refl)
    by_decision (no p) = (λ h. cc, λ q. absurd (p q))

-- the contents that a find leads to
unfoldable pub contents_at : List Entry → Option ℕ → Option Content
contents_at t none = none
contents_at t (some i) = some (content (slot_at t i))

unfoldable pub lookup : ℕ → Shard → List ℕ → ℕ → Option Content
unfolding contents_at
lookup now s key hash = contents_at s.table (shard_find now s key hash)

-- how many live entries have the key
abbrev pub copies : Shard → List ℕ → ℕ → ℕ
copies s key hash = live_count (has_key hash key) s.table

-- A table of the right shape with at most one copy of the key: what a lookup returns is what some
-- live entry with the key holds, unexpired.
pub lookup_iff :
    (now : ℕ) (s : Shard) (key : List ℕ) (hash : ℕ) (c : Content)
    → IsTable s
    → copies s key hash ≤ 1
    → (lookup now s key hash ≡ some c)
      ↔ ((0 < live_count (is c) s.table) × (has_key hash key c ≡ true) × (expired now c ≡ false))
unfolding lookup has_key expired entry_matches entry_expired
lookup_iff now s key hash c v few = (
  λ h. to_content (Option-cases (shard_find now s key hash)) h,
  λ (some_c, has_c, fresh). from_content some_c has_c fresh,
)
  where
    once : IsUnique s.cap s.table hash key
    once i j hi hj a b =
        one_slot (has_key hash key) s.table few i j (omega (arith, v.width))
          (omega (arith, v.width)) a.is_live a.same b.is_live b.same

    Held : Type 0
    Held = (0 < live_count (is c) s.table) × (has_key hash key c ≡ true) × (expired now c ≡ false)

    to_content :
        (shard_find now s key hash ≡ none) ⊎ ((i : ℕ) × (shard_find now s key hash ≡ some i))
        → contents_at s.table (shard_find now s key hash) ≡ some c
        → Held
    to_content (inl e) h = cc (rw e at h)
    to_content (inr (i, e)) h =
        let (hi, has, fresh) = (shard_find_iff now s key hash i v once).0 e in
        let same : content (slot_at s.table i) ≡ c = cc (rw e at h) in
        (
          omega (
            arith,
            weight_one (is c) (slot_at s.table i) has.is_live ((is_iff c _).1 same),
            weight-le_live_count (is c) s.table i (omega (arith, v.width)),
          ),
          subst (λ d. has_key hash key d ≡ true) same has.same,
          subst (λ d. expired now d ≡ false) same fresh,
        )

    from_content :
        0 < live_count (is c) s.table
        → has_key hash key c ≡ true
        → expired now c ≡ false
        → contents_at s.table (shard_find now s key hash) ≡ some c
    from_content some_c has_c fresh =
        let (i, hi, alive, is_c) = live_at (is c) s.table some_c in
        let same : content (slot_at s.table i) ≡ c = (is_iff c _).0 is_c in
        let found = (shard_find_iff now s key hash i v once).1 (
          omega (arith, v.width),
          record {
            is_live = alive;
            same = subst (λ d. has_key hash key d ≡ true) (sym same) has_c;
          },
          subst (λ d. expired now d ≡ false) (sym same) fresh,
        ) in
        rw found (ap some same)

-- `s'` holds the live entries of `s` and one more, `x`
pub record Adds (s : Shard) (x : Content) (s' : Shard) : Type 0 where
  pub old_shape : IsTable s
  pub new_shape : IsTable s'
  pub counts : (p : Content → Bool) → live_count p s'.table ≡ live_count p s.table + to_nat (p x)

module _ (now : ℕ) {s s' : Shard} {x : Content} (adds : Adds s x s') (key : List ℕ) (hash : ℕ) where
  -- an entry of another key changes no lookup
  pub lookup-other :
      has_key hash key x ≡ false
      → copies s key hash ≤ 1
      → lookup now s' key hash ≡ lookup now s key hash
  lookup-other other few = Option_ext _ _ λ c.
      let few' : copies s' key hash ≤ 1 =
        omega (arith, adds.counts (has_key hash key), not_counted (has_key hash key) other) in
      let old = lookup_iff now s key hash c adds.old_shape few in
      let new = lookup_iff now s' key hash c adds.new_shape few' in
      (
        λ h.
            let (some_c, has_c, fresh) = new.0 h in
            old.1 (omega (arith, same_count c has_c), has_c, fresh),
        λ h.
            let (some_c, has_c, fresh) = old.0 h in
            new.1 (omega (arith, same_count c has_c), has_c, fresh),
      )
    where
      not_counted : (p : Content → Bool) → p x ≡ false → to_nat (p x) ≡ 0
      not_counted p e = rw e

      is_not : (c : Content) → has_key hash key c ≡ true → (b : Bool) → is c x ≡ b → is c x ≡ false
      is_not c has_c true e =
          let same : x ≡ c = (is_iff c x).0 e in
          cc (other, subst (λ d. has_key hash key d ≡ true) (sym same) has_c)
      is_not c has_c false e = e

      same_count :
          (c : Content)
          → has_key hash key c ≡ true
          → live_count (is c) s'.table ≡ live_count (is c) s.table
      same_count c has_c =
          omega (arith, adds.counts (is c), not_counted (is c) (is_not c has_c _ refl))

  -- the only entry of its key is found, unless it has expired
  pub lookup-added :
      has_key hash key x ≡ true
      → copies s key hash ≡ 0
      → expired now x ≡ false
      → lookup now s' key hash ≡ some x
  lookup-added has_x absent fresh =
      (lookup_iff now s' key hash x adds.new_shape
          (omega (arith, adds.counts (has_key hash key), counted (has_key hash key) has_x))).1
        (omega (arith, adds.counts (is x), counted (is x) ((is_iff x x).1 refl)), has_x, fresh)
    where
      counted : (p : Content → Bool) → p x ≡ true → to_nat (p x) ≡ 1
      counted p e = rw e

  -- without the only entry of its key nothing is found
  pub lookup-removed :
      has_key hash key x ≡ true → copies s' key hash ≤ 1 → lookup now s key hash ≡ none
  lookup-removed has_x few' = elim (Option-cases (lookup now s key hash)) [
    | inl e ↦ e
    | inr (c, e) ↦
        let (some_c, has_c, fresh) =
          (lookup_iff now s key hash c adds.old_shape
              (omega (arith, adds.counts (has_key hash key)))).0
            e in
        absurd (
          omega (
            arith,
            adds.counts (has_key hash key),
            ap to_nat has_x,
            live_count_mono (is c) (has_key hash key)
                (λ d q. subst (λ y. has_key hash key y ≡ true) (sym ((is_iff c d).0 q)) has_c)
                s.table,
          ))
  ]

-- An insertion with a free slot adds its entry.
pub shard_insert-Adds :
    (s : Shard) (x : Entry) (i : ℕ)
    → IsTable s
    → i < s.cap
    → IsFree (slot_at s.table i)
    → Adds s (content x) (shard_insert s x)
shard_insert-Adds s x i v hi free = record {
  old_shape = v;
  new_shape = shard_insert-IsTable s x v;
  counts = λ p. shard_insert-live_count s x v p i hi free;
}
