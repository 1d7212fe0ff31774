-- ===== src/Cache/Overwrite.antt =====
-- What a `vc_set` of src/voidcache.c does to its shard, seen as a map.
use void_cache.Prelude.{
  ℕ, ◌*◌, ◌/◌, ◌≤◌, ◌<◌, ◌≡◌, ◌≢◌, arith, ◌∙◌, refl, true, false, List, Option, some, leb, leb→le,
  inl, inr, Bool-cases, subst, ap,
}
use void_cache.Prelude.Bits.{IsPow2-pos}
use native.Mathlib.Nat.{le-div_iff_mul-le}
use void_cache.Hash.{word32}
use void_cache.Slab.{Slab}
use void_cache.Entry.{Entry}
use void_cache.Shard.{Shard, shard_find, shard_insert, inc32, inc64}
use void_cache.Shard.Locks.{shard_lock, shard_unlock, seq_write_begin, seq_write_end}
use void_cache.Shard.Contents.{Content, content, to_nat}
use void_cache.Shard.Lookup.{
  has_key, expired, lookup, copies, Adds, lookup-other, lookup-added, shard_insert-Adds,
}
use void_cache.Shard.Counted.{IsCounted, any, IsFree-slot, shard_insert-IsCounted, IsCounted-locks}
use void_cache.Shard.Distinct.{has_key_same, stale}
use void_cache.Cache.{drop_old, make_room, shard_set}
use void_cache.Cache.Locked.{
  Kept, Fewer, then_Fewer, Thins, drop_old-Thins, drop_old_lem, crowded, make_room_lem,
}

crowded_mono :
    (a b cap : ℕ)
    → a ≤ b
    → 0 < cap
    → leb 85 (word32 (a * 100) / cap) ≡ true
    → leb 85 (b * 100 / cap) ≡ true
crowded_mono a b cap h pos q =
    let full = (le-div_iff_mul-le pos).0 (leb→le 85 _ q) in
    let fuller : 85 ≤ b * 100 / cap = (le-div_iff_mul-le pos).1 (omega (arith, full, h)) in
    ground (arith, fuller)

module _ (now : ℕ) (s : Shard) (sl : Slab) (key : List ℕ) (hash : ℕ) (ne : Entry)
    (v : IsCounted s) where
  opened : Shard
  opened = record s { wlock = 1; seq = inc64 s.seq }

  dropped : Shard × Slab
  dropped = drop_old opened sl (shard_find now opened key hash)

  made_room : Shard
  made_room = (make_room dropped.0 dropped.1).0

  opened-IsCounted : IsCounted opened
  unfolding opened
  opened-IsCounted = IsCounted-locks s (inc64 s.seq) 1 s.hits s.misses s.sets v

  -- how many entries are left for the insertion
  thinned : Thins s made_room
  unfolding opened dropped made_room shard_find
  thinned =
      let first = drop_old-Thins now opened sl key hash opened-IsCounted in
      let then' = make_room_lem dropped.0 dropped.1 key hash first.counted in
      record {
        counted = then'.counted;
        width = then'.width ∙ first.width;
        fewer = omega (arith, then'.fewer any, first.fewer);
      }

  room_left : s.count < s.cap → made_room.count < made_room.cap
  room_left room = omega (arith, thinned.counted.counted, thinned.fewer, v.counted, thinned.width)

  final_shape : (shard_set now s sl key hash ne).0 ≡ record (shard_insert made_room ne) {
    count = inc32 (shard_insert made_room ne).count;
    sets = inc64 (shard_insert made_room ne).sets;
    seq = inc64 (shard_insert made_room ne).seq;
    wlock = 0;
  }
  unfolding shard_set opened dropped made_room shard_lock shard_unlock seq_write_begin seq_write_end
  final_shape = refl

  pub shard_set-unlocked : (shard_set now s sl key hash ne).0.wlock ≡ 0
  shard_set-unlocked = ap (λ (t : Shard). t.wlock) final_shape

  -- A set in a shard that satisfies the invariant and is not full keeps the invariant, whatever entries
  -- of the key there are, expired or not: the shape of the table, the count, and no slot BUSY.
  pub shard_set-IsCounted : s.count < s.cap → IsCounted (shard_set now s sl key hash ne).0
  shard_set-IsCounted room =
      let w = shard_insert-IsCounted made_room ne (room_left room) thinned.counted in
      rw final_shape (IsCounted-locks _ _ 0 _ _ _ w)

module _ (now : ℕ) (s : Shard) (sl : Slab) (key : List ℕ) (hash : ℕ) (ne : Entry) (v : IsCounted s)
    (few : copies s key hash ≤ 1) (fresh : stale now s key hash ≡ 0) where
  -- the shard as the insertion meets it
  cleared :
      Fewer
        (crowded (dropped now s sl key hash ne v).0)
        key
        hash
        s
        (made_room now s sl key hash ne v)
      × (copies (made_room now s sl key hash ne v) key hash ≡ 0)
      × ((dropped now s sl key hash ne v).0.count ≤ s.count)
      × ((dropped now s sl key hash ne v).0.cap ≡ s.cap)
  unfolding opened dropped made_room lookup shard_find
  cleared =
      let (fewer, gone) =
        drop_old_lem now (opened now s sl key hash ne v) sl key hash
          (opened-IsCounted now s sl key hash ne v) few fresh in
      let room =
        make_room_lem (dropped now s sl key hash ne v).0 (dropped now s sl key hash ne v).1 key hash
          fewer.counted in
      let all =
        then_Fewer (crowded (dropped now s sl key hash ne v).0) key hash
          (opened now s sl key hash ne v) (dropped now s sl key hash ne v).0
          (made_room now s sl key hash ne v) fewer room in
      (
        record { counted = all.counted; width = all.width; fewer = all.fewer; others = all.others },
        omega (arith, room.fewer (has_key hash key), gone),
        omega (arith, fewer.counted.counted, fewer.fewer any, v.counted),
        fewer.width,
      )

  adds :
      s.count < s.cap
      → Adds (made_room now s sl key hash ne v) (content ne) (shard_set now s sl key hash ne).0
  unfolding shard_insert
  adds room =
      let (i, hi, free) =
        IsFree-slot (made_room now s sl key hash ne v) cleared.0.counted
          ((room_left now s sl key hash ne v) room) in
      let a =
        shard_insert-Adds (made_room now s sl key hash ne v) ne i cleared.0.counted.shape hi free in
      rw (final_shape now s sl key hash ne v) (record {
        old_shape = a.old_shape;
        new_shape = record {
          pow2 = a.new_shape.pow2;
          width = a.new_shape.width;
          chained = a.new_shape.chained;
        };
        counts = a.counts;
      })

  -- After a set in a shard that satisfies the invariant and is not full, and where the key has at most
  -- one entry and no expired one, the key leads to the entry given, at any time at which that has not
  -- expired, and no other entry has the key.
  pub shard_set-lookup :
      (later : ℕ)
      → s.count < s.cap
      → has_key hash key (content ne) ≡ true
      → expired later (content ne) ≡ false
      → (lookup later (shard_set now s sl key hash ne).0 key hash ≡ some (content ne))
        × (copies (shard_set now s sl key hash ne).0 key hash ≡ 1)
  shard_set-lookup later room has alive = (
    lookup-added later (adds room) key hash has cleared.1 alive,
    omega (arith, (adds room).counts (has_key hash key), ap to_nat has, cleared.1),
  )

  -- A set in a shard that satisfies the invariant and is not full, and where the key has at most one
  -- entry and no expired one, does not change what another key with at most one entry leads to, if the
  -- shard is loaded below 85 percent; in a fuller shard it at most evicts that key.
  pub shard_set-other :
      (later : ℕ) (key' : List ℕ) (hash' : ℕ)
      → s.count < s.cap
      → has_key hash key (content ne) ≡ true
      → key ≢ key'
      → copies s key' hash' ≤ 1
      → Kept
          (leb 85 (s.count * 100 / s.cap))
          (lookup later s key' hash')
          (lookup later (shard_set now s sl key hash ne).0 key' hash')
  shard_set-other later key' hash' room has ne' few' =
      let before = cleared.0.others later key' hash' ne' few' in
      let few'' : copies (made_room now s sl key hash ne v) key' hash' ≤ 1 =
        omega (arith, cleared.0.fewer (has_key hash' key')) in
      let same = lookup-other later (adds room) key' hash' not_that few'' in by_loss before same
    where
      not_that : has_key hash' key' (content ne) ≡ false
      not_that = elim (Bool-cases (has_key hash' key' (content ne))) [
        | inr q ↦ q
        | inl q ↦ absurd (ne' (has_key_same (content ne) hash hash' key key' has q).1)
      ]

      New : Option Content
      New = lookup later (shard_set now s sl key hash ne).0 key' hash'

      by_loss :
          Kept
            (crowded (dropped now s sl key hash ne v).0)
            (lookup later s key' hash')
            (lookup later (made_room now s sl key hash ne v) key' hash')
          → New ≡ lookup later (made_room now s sl key hash ne v) key' hash'
          → Kept (leb 85 (s.count * 100 / s.cap)) (lookup later s key' hash') New
      by_loss (inl p) q = inl (q ∙ p)
      by_loss (inr (lost, p)) q =
          let pos = IsPow2-pos s.cap v.shape.pow2 in
          let (_, _, fewer, width) = cleared in
          inr (
            crowded_mono (dropped now s sl key hash ne v).0.count s.count s.cap fewer pos (
                subst
                  (λ n. leb 85 (word32 ((dropped now s sl key hash ne v).0.count * 100) / n) ≡ true)
                  width lost),
            q ∙ p,
          )
