-- ===== src/Cache/Locked.antt =====
-- The part of `vc_set` of src/voidcache.c under the lock, on the shard as a map.
use void_cache.Prelude.{
  ℕ, ◌*◌, ◌/◌, ◌≤◌, ◌≡◌, ◌≢◌, ◌⊎◌, arith, ◌∙◌, refl, sym, Bool, true, false, List, Option, none,
  some, leb, inl, inr, Bool-cases, if◌then◌else◌, ap,
}
use void_cache.Hash.{word32}
use void_cache.Slab.{Slab}
use void_cache.Shard.{Shard, slot_at, shard_find, shard_evict_one, shard_bury}
use void_cache.Shard.Contents.{Content, content, to_nat, live_count}
use void_cache.Shard.Lookup.{has_key, lookup, copies, Adds, lookup-other, lookup-removed}
use void_cache.Shard.Evict.Sweeps.{Evicts, shard_evict_one-Evicts, cap-shard_evict_one}
use void_cache.Shard.Find.{shard_find_sound}
use void_cache.Shard.Counted.{
  IsCounted, any, shard_bury-Adds, shard_bury-IsCounted, shard_evict_one-IsCounted,
}
use void_cache.Shard.Distinct.{has_key_same, stale, found, none_left, lookup-same}
use void_cache.Cache.{drop_old, make_room}

-- the old lookup, or, where an entry may have been evicted, nothing
abbrev pub Kept : Bool → Option Content → Option Content → Type 0
Kept lost old new = (new ≡ old) ⊎ ((lost ≡ true) × (new ≡ none))

-- What becomes of `s` when entries are taken out of it; `lost` says whether other keys than `key`
-- may lose theirs.
pub record Fewer (lost : Bool) (key : List ℕ) (hash : ℕ) (s s' : Shard) : Type 0 where
  pub counted : IsCounted s'
  pub width : s'.cap ≡ s.cap
  pub fewer : (p : Content → Bool) → live_count p s'.table ≤ live_count p s.table
  pub others :
      (now : ℕ) (key' : List ℕ) (hash' : ℕ)
      → key ≢ key'
      → copies s key' hash' ≤ 1
      → Kept lost (lookup now s key' hash') (lookup now s' key' hash')

then_Kept : (b : Bool) (x y z : Option Content) → Kept false x y → Kept b y z → Kept b x z
then_Kept b x y z (inl p) (inl q) = inl (q ∙ p)
then_Kept b x y z (inl p) (inr q) = inr q
then_Kept b x y z (inr p) q = cc

pub then_Fewer :
    (b : Bool) (key : List ℕ) (hash : ℕ) (s s' s'' : Shard)
    → Fewer false key hash s s'
    → Fewer b key hash s' s''
    → Fewer b key hash s s''
then_Fewer b key hash s s' s'' f g = record {
  counted = g.counted;
  width = g.width ∙ f.width;
  fewer = λ p. omega (arith, f.fewer p, g.fewer p);
  others = λ now key' hash' ne few.
      then_Kept b _ _ _ (f.others now key' hash' ne few)
        (g.others now key' hash' ne (omega (arith, f.fewer (has_key hash' key'))));
}

module _ (s : Shard) (v : IsCounted s) (key : List ℕ) (hash : ℕ) where
  unchanged : Fewer false key hash s s
  unchanged = record {
    counted = v;
    width = refl;
    fewer = λ p. omega arith;
    others = λ now key' hash' ne few. inl refl;
  }

  -- without the entry of the key itself
  without :
      (s' : Shard) (x : Content)
      → Adds s' x s
      → has_key hash key x ≡ true
      → IsCounted s'
      → s'.cap ≡ s.cap
      → Fewer false key hash s s'
  without s' x adds has w width = record {
    counted = w;
    width = width;
    fewer = λ p. omega (arith, adds.counts p);
    others = λ now key' hash' ne few. elim (Bool-cases (has_key hash' key' x)) [
      | inl q ↦ absurd (ne (has_key_same x hash hash' key key' has q).1)
      | inr q ↦ inl (
          sym
            (lookup-other now adds key' hash' q (omega (arith, adds.counts (has_key hash' key')))))
    ];
  }

  -- without some entry
  without_any :
      (s' : Shard) (x : Content)
      → Adds s' x s
      → IsCounted s'
      → s'.cap ≡ s.cap
      → Fewer true key hash s s'
  without_any s' x adds w width = record {
    counted = w;
    width = width;
    fewer = λ p. omega (arith, adds.counts p);
    others = λ now key' hash' ne few. elim (Bool-cases (has_key hash' key' x)) [
      | inl q ↦ inr (refl, gone now key' hash' q few)
      | inr q ↦ inl (
          sym
            (lookup-other now adds key' hash' q (omega (arith, adds.counts (has_key hash' key')))))
    ];
  }
    where
      gone :
          (now : ℕ) (key' : List ℕ) (hash' : ℕ)
          → has_key hash' key' x ≡ true
          → copies s key' hash' ≤ 1
          → lookup now s' key' hash' ≡ none
      gone now key' hash' q few = lookup-removed now adds key' hash' q few

module _ (now : ℕ) (s : Shard) (sl : Slab) (key : List ℕ) (hash : ℕ) (v : IsCounted s)
    (few : copies s key hash ≤ 1) (fresh : stale now s key hash ≡ 0) where
  pub drop_old_lem :
      let r = drop_old s sl (shard_find now s key hash) in
      Fewer false key hash s r.0 × (copies r.0 key hash ≡ 0)
  unfolding drop_old shard_bury
  drop_old_lem = by_find _ refl
    where
      by_find :
          (o : Option ℕ)
          → shard_find now s key hash ≡ o
          → Fewer false key hash s (drop_old s sl o).0 × (copies (drop_old s sl o).0 key hash ≡ 0)
      by_find none e = (unchanged s v key hash, none_left now s key hash v few fresh e)
      by_find (some i) e =
          let (hi, alive, has) = found now s key hash v few fresh i e in
          let adds = shard_bury-Adds s sl i hi alive v.shape in
          (
            without s v key hash (shard_bury s sl i).0 (content (slot_at s.table i)) adds has
                (shard_bury-IsCounted s sl i hi alive v) refl,
            omega (arith, adds.counts (has_key hash key), few, ap to_nat has),
          )

-- the invariant, and no more entries than before
pub record Thins (s s' : Shard) : Type 0 where
  pub counted : IsCounted s'
  pub width : s'.cap ≡ s.cap
  pub fewer : live_count any s'.table ≤ live_count any s.table

-- Whatever entries of the key there are, the removal of the one found keeps the invariant.
pub drop_old-Thins :
    (now : ℕ) (s : Shard) (sl : Slab) (key : List ℕ) (hash : ℕ)
    → IsCounted s
    → Thins s (drop_old s sl (shard_find now s key hash)).0
unfolding drop_old shard_bury
drop_old-Thins now s sl key hash v = by_find _ refl
  where
    by_find : (o : Option ℕ) → shard_find now s key hash ≡ o → Thins s (drop_old s sl o).0
    by_find none e = record { counted = v; width = refl; fewer = omega arith }
    by_find (some i) e =
        let (hi, has, alive) = shard_find_sound now s key hash i v.shape e in
        let adds = shard_bury-Adds s sl i hi has.is_live v.shape in
        record {
          counted = shard_bury-IsCounted s sl i hi has.is_live v;
          width = refl;
          fewer = omega (arith, adds.counts any);
        }

-- the test of `vc_set` on the load of the shard
abbrev pub crowded : Shard → Bool
crowded s = leb 85 (word32 (s.count * 100) / s.cap)

module _ (s : Shard) (sl : Slab) (key : List ℕ) (hash : ℕ) (v : IsCounted s) where
  pub make_room_lem : Fewer (crowded s) key hash s (make_room s sl).0
  unfolding make_room
  make_room_lem =
      by_load (crowded s) (shard_evict_one s sl) (shard_evict_one-Evicts s sl v.shape)
        (cap-shard_evict_one s sl) (shard_evict_one-IsCounted s sl v)
    where
      room : Bool → Shard × Slab → Shard × Slab
      room b r = if b then r else (s, sl)

      by_load :
          (b : Bool) (r : Option ℕ × Shard × Slab)
          → Evicts s sl r
          → r.1.cap ≡ s.cap
          → IsCounted r.1
          → Fewer b key hash s (room b (r.1, r.2)).0
      by_load false r e width w = unchanged s v key hash
      by_load true (some i, s', sl') e width w =
          without_any s v key hash s' (content (slot_at s'.table i)) e.0 w width
      by_load true (none, s', sl') (shape, same, _, _) width w = record {
        counted = w;
        width = width;
        fewer = λ p. omega (arith, same p);
        others =
            λ now key' hash' ne few. inl (lookup-same now s s' key' hash' v.shape shape same few);
      }
