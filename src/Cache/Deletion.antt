-- ===== src/Cache/Deletion.antt =====
-- What `vc_del` of src/voidcache.c does to its shard, seen as a map.
use void_cache.Prelude.{
  ℕ, ◌≤◌, ◌≡◌, ◌≢◌, arith, ◌∙◌, refl, sym, ap, false, List, [], Option, none, some, length,
  get_or-set_self, subst, inl, inr,
}
use void_cache.Hash.{num_shards, shard_idx}
use void_cache.Hash.Reads.{shard_idx-lt}
use void_cache.Slab.{Slab}
use void_cache.Shard.{Shard, shard_find, inc64}
use void_cache.Shard.Locks.{shard_lock, shard_unlock, seq_write_begin, seq_write_end}
use void_cache.Shard.Contents.{Content}
use void_cache.Shard.Lookup.{lookup, copies}
use void_cache.Shard.Counted.{IsCounted, IsCounted-locks}
use void_cache.Shard.Distinct.{stale, lookup-absent}
use void_cache.Cache.{Err, Cache, Env, new_shard, hash_of, shard_at, drop_old}
use void_cache.Cache.Get.{vc_get}
use void_cache.Cache.Remove.{shard_del, shard_del_found, vc_del}
use void_cache.Cache.Locked.{Fewer, Kept, drop_old_lem}
use void_cache.Cache.Reads.{answer, vc_get-lookup}
use void_cache.Cache.RoundTrip.{hash_of-lt}

-- what is told of a find
abbrev pub del_result : Option ℕ → Err
del_result none = Err.notfnd
del_result (some slot) = Err.ok

module _ (now : ℕ) (s : Shard) (sl : Slab) (key : List ℕ) (hash : ℕ) (v : IsCounted s)
    (few : copies s key hash ≤ 1) (fresh : stale now s key hash ≡ 0) where
  -- the shard as `drop_old` would leave it, with the lock and the sequence of the end of the call
  shard_del_shape :
      let r = drop_old (record s { wlock = 1; seq = inc64 s.seq }) sl (shard_find now s key hash) in
      shard_del now s sl key hash
      ≡ (del_result (shard_find now s key hash), record r.0 { wlock = 0; seq = inc64 r.0.seq }, r.1)
  unfolding shard_del shard_lock seq_write_begin seq_write_end shard_unlock drop_old shard_del_found
      shard_find
  shard_del_shape = by_find (shard_find now s key hash)
    where
      s0 : Shard
      s0 = record s { wlock = 1; seq = inc64 s.seq }

      by_find :
          (o : Option ℕ)
          → shard_del_found s0 sl o ≡ (
            del_result o,
            record (drop_old s0 sl o).0 { wlock = 0; seq = inc64 (drop_old s0 sl o).0.seq },
            (drop_old s0 sl o).1,
          )
      by_find none = refl
      by_find (some i) = refl

  dropped : Shard × Slab
  dropped = drop_old (record s { wlock = 1; seq = inc64 s.seq }) sl (shard_find now s key hash)

  dropped-Fewer :
      Fewer false key hash (record s { wlock = 1; seq = inc64 s.seq }) dropped.0
      × (copies dropped.0 key hash ≡ 0)
  unfolding dropped shard_find
  dropped-Fewer =
      drop_old_lem now (record s { wlock = 1; seq = inc64 s.seq }) sl key hash
        (IsCounted-locks s (inc64 s.seq) 1 s.hits s.misses s.sets v) few fresh

  -- A deletion of a key that has at most one entry and no expired one keeps the invariant, leaves no
  -- entry of the key and the lock free. It answers VC_OK
  -- when `_shard_find` finds the key, else VC_ERR_NOTFND.
  pub shard_del_lem :
      let r = shard_del now s sl key hash in
      IsCounted r.1
      × (copies r.1 key hash ≡ 0)
      × (r.1.wlock ≡ 0)
      × (r.0 ≡ del_result (shard_find now s key hash))
  unfolding dropped
  shard_del_lem =
      let (fewer, gone) = dropped-Fewer in
      let r = dropped.0 in
      rw shard_del_shape
        (IsCounted-locks r (inc64 r.seq) 0 r.hits r.misses r.sets fewer.counted, gone, refl, refl)

  -- A deletion in a shard that satisfies the invariant, of a key that has at most one entry and no
  -- expired one, does not change what another key with at most one entry leads to, at any time.
  pub shard_del-other :
      (later : ℕ) (key' : List ℕ) (hash' : ℕ)
      → key ≢ key'
      → copies s key' hash' ≤ 1
      → lookup later (shard_del now s sl key hash).1 key' hash' ≡ lookup later s key' hash'
  unfolding dropped lookup shard_find
  shard_del-other later key' hash' ne few' =
      rw shard_del_shape (kept _ _ (dropped-Fewer.0.others later key' hash' ne few'))
    where
      kept : (x y : Option Content) → Kept false x y → y ≡ x
      kept x y (inl p) = p
      kept x y (inr p) = cc

module _ (env : Env) (c : Cache) (key : List ℕ) (wide : length c.shards ≡ num_shards)
    (v : IsCounted (shard_at c (shard_idx (hash_of key))))
    (few : copies (shard_at c (shard_idx (hash_of key))) key (hash_of key) ≤ 1)
    (fresh : stale env.now (shard_at c (shard_idx (hash_of key))) key (hash_of key) ≡ 0) where
  -- In a cache of 64 shards, after a deletion in a shard that satisfies the invariant, where the
  -- key has at most one entry and that has not expired, a get of the key finds nothing at any time.
  pub vc_del-get : (later : ℕ) → (vc_get later (vc_del env c key).1 key).0 ≡ (Err.notfnd, [])
  unfolding vc_del
  vc_del-get later =
      let si = shard_idx (hash_of key) in
      let c' = (vc_del env c key).1 in
      let s' = (shard_del env.now (shard_at c si) c.slab key (hash_of key)).1 in
      let (w, gone, unlocked, _) =
        shard_del_lem env.now (shard_at c si) c.slab key (hash_of key) v few fresh in
      let there : shard_at c' si ≡ s' =
        get_or-set_self c.shards si s' (new_shard 1)
          (omega (arith, wide, shard_idx-lt (hash_of key) (hash_of-lt key))) in
      vc_get-lookup later c' key (subst IsCounted (sym there) w) (rw there (omega (arith, gone)))
        (rw there unlocked)
      ∙ ap (answer c'.slab) (
          ap (λ s. lookup later s key (hash_of key)) there
          ∙ lookup-absent later s' key (hash_of key) w.shape gone)
