-- ===== src/Shard/Distinct.antt =====
-- Keys with one entry, and what `_shard_find` of src/voidcache.c says about them.
use void_cache.Prelude.{
  Option-cases, inl, inr, subst, none, Option_ext, ℕ, zero, suc, ◌≤◌, ◌<◌, ◌≡◌, arith, ◌∙◌, refl,
  sym, Bool, true, false, List, none, some, ◌&&◌, bytes_eq, bytes_eq→eq,
}
use void_cache.Entry.{entry_matches, entry_key, entry_expired}
use void_cache.Shard.{Shard, slot_at, shard_find}
use void_cache.Shard.Contents.{
  live_count_mono, Content, content, live_count, live_at, weight-le_live_count, weight_one,
  one_slot,
}
use void_cache.Shard.Find.{IsTable, Has, IsUnique, shard_find_iff}
use void_cache.Entry.{live}
use void_cache.Shard.Lookup.{lookup, lookup_iff, is_iff, is, as_entry, has_key, expired, copies}
use void_cache.Shard.Counted.{IsCounted}

-- how many live entries have the key but have expired
abbrev pub stale : ℕ → Shard → List ℕ → ℕ → ℕ
stale now s key hash = live_count (λ c. has_key hash key c && expired now c) s.table

-- no key has two entries
abbrev pub IsDistinct : Shard → Type 0
IsDistinct s = (key : List ℕ) (hash : ℕ) → copies s key hash ≤ 1

-- A content has one key and one hash.
pub has_key_same :
    (c : Content) (h k : ℕ) (x y : List ℕ)
    → has_key h x c ≡ true
    → has_key k y c ≡ true
    → (h ≡ k) × (x ≡ y)
unfolding has_key entry_matches
has_key_same c h k x y p q =
    let bx : bytes_eq (entry_key (as_entry c)) x ≡ true = ground arith in
    let by_y : bytes_eq (entry_key (as_entry c)) y ≡ true = ground arith in
    (ground arith, sym (bytes_eq→eq _ x bx) ∙ bytes_eq→eq _ y by_y)

module _ (now : ℕ) (s : Shard) (key : List ℕ) (hash : ℕ) (v : IsCounted s)
    (few : copies s key hash ≤ 1) (fresh : stale now s key hash ≡ 0) where
  -- the slot found is live and has the key
  pub found :
      (i : ℕ)
      → shard_find now s key hash ≡ some i
      → (i < s.cap)
        × ((slot_at s.table i).state ≡ live)
        × (has_key hash key (content (slot_at s.table i)) ≡ true)
  unfolding has_key entry_matches
  found i e =
      let once : IsUnique s.cap s.table hash key = λ i j hi hj a b.
        one_slot (has_key hash key) s.table few i j (omega (arith, v.shape.width))
          (omega (arith, v.shape.width)) a.is_live a.same b.is_live b.same in
      let r = (shard_find_iff now s key hash i v.shape once).0 e in (r.0, r.1.is_live, r.1.same)

  -- where nothing is found, no entry has the key
  pub none_left : shard_find now s key hash ≡ none → copies s key hash ≡ 0
  unfolding has_key expired entry_matches entry_expired
  none_left e = by_count (copies s key hash) refl
    where
      once : IsUnique s.cap s.table hash key
      once i j hi hj a b =
          one_slot (has_key hash key) s.table few i j (omega (arith, v.shape.width))
            (omega (arith, v.shape.width)) a.is_live a.same b.is_live b.same

      no_old :
          (c : Content)
          → expired now c ≡ true
          → (has_key hash key c && expired now c) ≡ has_key hash key c
      no_old c h = ground arith

      impossible :
          (b : Bool) (i : ℕ)
          → i < s.cap
          → Has hash key (slot_at s.table i)
          → entry_expired now (slot_at s.table i) ≡ b
          → ⊥
      impossible false i hi has old =
          let r = (shard_find_iff now s key hash i v.shape once).1 (hi, has, old) in cc
      impossible true i hi has old =
          let one =
            weight_one (λ c. has_key hash key c && expired now c) (slot_at s.table i) has.is_live
              (no_old (content (slot_at s.table i)) old ∙ has.same) in
          omega (
            arith,
            one,
            fresh,
            weight-le_live_count (λ c. has_key hash key c && expired now c) s.table i
                (omega (arith, v.shape.width)),
          )

      by_count : (n : ℕ) → copies s key hash ≡ n → copies s key hash ≡ 0
      by_count zero q = q
      by_count (suc n) q =
          let (i, hi, alive, same) = live_at (has_key hash key) s.table (omega (arith, q)) in
          absurd (
            impossible _ i (omega (arith, v.shape.width)) (record { is_live = alive; same = same })
              refl)

-- what a find leads to, without the test on time
pub find_in :
    (now : ℕ) (s : Shard) (key : List ℕ) (hash i : ℕ)
    → IsTable s
    → copies s key hash ≤ 1
    → shard_find now s key hash ≡ some i
    → (i < s.cap) × ((slot_at s.table i).state ≡ live)
unfolding has_key entry_matches
find_in now s key hash i v few e =
    let once : IsUnique s.cap s.table hash key = λ i j hi hj a b.
      one_slot (has_key hash key) s.table few i j (omega (arith, v.width)) (omega (arith, v.width))
        a.is_live a.same b.is_live b.same in
    let (hi, has, fresh) = (shard_find_iff now s key hash i v once).0 e in (hi, has.is_live)

-- Tables that hold the same answer the same lookups.
pub lookup-same :
    (now : ℕ) (s s' : Shard) (key : List ℕ) (hash : ℕ)
    → IsTable s
    → IsTable s'
    → ((p : Content → Bool) → live_count p s'.table ≡ live_count p s.table)
    → copies s key hash ≤ 1
    → lookup now s' key hash ≡ lookup now s key hash
lookup-same now s s' key hash v v' same few = Option_ext _ _ λ c.
    let old = lookup_iff now s key hash c v few in
    let new = lookup_iff now s' key hash c v' (omega (arith, same (has_key hash key))) in
    (
      λ h. let (some_c, has_c, alive) = new.0 h in old.1 (omega (arith, same (is c)), has_c, alive),
      λ h. let (some_c, has_c, alive) = old.0 h in new.1 (omega (arith, same (is c)), has_c, alive),
    )

-- Without an entry of the key nothing is found.
pub lookup-absent :
    (now : ℕ) (s : Shard) (key : List ℕ) (hash : ℕ)
    → IsTable s
    → copies s key hash ≡ 0
    → lookup now s key hash ≡ none
lookup-absent now s key hash v absent = elim (Option-cases (lookup now s key hash)) [
  | inl e ↦ e
  | inr (c, e) ↦
      let (some_c, has_c, fresh) = (lookup_iff now s key hash c v (omega (arith, absent))).0 e in
      absurd (
        omega (
          arith,
          absent,
          live_count_mono (is c) (has_key hash key)
              (λ d q. subst (λ y. has_key hash key y ≡ true) (sym ((is_iff c d).0 q)) has_c)
              s.table,
        ))
]
