-- ===== src/Cache/RoundTrip.antt =====
-- `vc_set`, then `vc_get`, of src/voidcache.c.
use void_cache.Prelude.{
  ℕ, zero, suc, ◌⊎◌, inl, inr, [], ◌∷◌, ◌+◌, ◌*◌, ◌%◌, ◌≤◌, ◌<◌, ◌≡◌, arith, ◌∙◌, refl, sym, ap,
  Bool, true, false, List, some, ltb, ==_iff, length, take, if◌then◌else◌, ◌^◌, get_or-set_self,
  subst, bytes_eq_refl,
}
use void_cache.Hash.{word64, num_shards, shard_idx}
use void_cache.Hash.Reads.{wyhash64_total, shard_idx-lt}
use void_cache.Slab.{Slab}
use void_cache.Entry.{Payload, entry_key, entry_val, entry_matches, entry_expired, key_bytes}
use void_cache.Shard.{Shard}
use void_cache.Shard.Contents.{Content, content}
use void_cache.Shard.Lookup.{as_entry, has_key, expired, lookup, copies}
use void_cache.Shard.Counted.{IsCounted}
use void_cache.Shard.Distinct.{stale}
use void_cache.Wal.{Wal, wal_append, wal_set}
use void_cache.Cache.{
  Err, Cache, Env, Build, built, out_of_memory, build, entry_for, hash_of, new_shard, or_zero,
  shard_at, shard_set, finish_set, vc_set,
}
use void_cache.Cache.Get.{vc_get}
use void_cache.Cache.Overwrite.{shard_set-lookup, shard_set-IsCounted, shard_set-unlocked}
use void_cache.Cache.Stored.{Stores, build-Stores, shard_set-cells}
use void_cache.Cache.Reads.{answer, vc_get-lookup}

pub hash_of-lt : (key : List ℕ) → hash_of key < 2 ^ 64
unfolding hash_of or_zero
hash_of-lt key = let (h, e, small) = wyhash64_total key 0 in rw e small

-- the entry that `vc_set` builds has the key
entry_for-has_key :
    (now : ℕ) (key val : List ℕ) (ttl : ℕ) (payload : Payload)
    → length key < 2 ^ 32
    → take (length key) (key_bytes payload) ≡ key
    → has_key (hash_of key) key (content (entry_for now key val ttl payload)) ≡ true
unfolding has_key entry_matches entry_key entry_for
entry_for-has_key now key val ttl payload short same =
    let n : length key % 2 ^ 32 ≡ length key = omega arith in
    rw
      (
        n,
        same,
        (==_iff (hash_of key) (hash_of key)).1 refl,
        (==_iff (length key) (length key)).1 refl,
      )
      (bytes_eq_refl key)

-- the part of a value that `val_len`, a uint16_t, can count
take_long : (n : ℕ) (xs : List ℕ) → length xs ≤ n → take n xs ≡ take (length xs) xs
take_long zero [] h = refl
take_long (suc n) [] h = refl
take_long zero (x ∷ xs) h = absurd (omega (arith, h))
take_long (suc n) (x ∷ xs) h = ap (λ zs. x ∷ zs) (take_long n xs (omega (arith, h)))

take_val_len :
    (val : List ℕ)
    → take (if ltb 65535 (length val) then 65535 else length val) val ≡ take 65535 val
take_val_len val = by_length (ltb 65535 (length val)) refl
  where
    by_length :
        (b : Bool)
        → ltb 65535 (length val) ≡ b
        → take (if b then 65535 else length val) val ≡ take 65535 val
    by_length true e = refl
    by_length false e = sym (take_long 65535 val (ground arith))

entry_for-fresh :
    (now later : ℕ) (key val : List ℕ) (ttl : ℕ) (payload : Payload)
    → (ttl ≡ 0) ⊎ (later ≤ word64 (now + ttl * 1_000_000_000))
    → expired later (content (entry_for now key val ttl payload)) ≡ false
unfolding expired entry_expired entry_for
entry_for-fresh now later key val ttl payload (inl p) = rw p refl
entry_for-fresh now later key val ttl payload (inr p) = ground arith

module _ (env : Env) (c : Cache) (key val : List ℕ) (ttl : ℕ) (short : length key < 2 ^ 32)
    (wide : length c.shards ≡ num_shards) (v : IsCounted (shard_at c (shard_idx (hash_of key))))
    (few : copies (shard_at c (shard_idx (hash_of key))) key (hash_of key) ≤ 1)
    (fresh : stale env.now (shard_at c (shard_idx (hash_of key))) key (hash_of key) ≡ 0)
    (room : (shard_at c (shard_idx (hash_of key))).count
      < (shard_at c (shard_idx (hash_of key))).cap) where
  abbrev si : ℕ
  si = shard_idx (hash_of key)

  -- a get that meets the shard `s`
  get_at :
      (c' : Cache) (s : Shard) (later : ℕ) (x : Content)
      → shard_at c' si ≡ s
      → IsCounted s
      → copies s key (hash_of key) ≤ 1
      → s.wlock ≡ 0
      → lookup later s key (hash_of key) ≡ some x
      → (vc_get later c' key).0 ≡ (Err.ok, entry_val c'.slab (as_entry x))
  get_at c' s later x e w few' unlocked found =
      vc_get-lookup later c' key (subst IsCounted (sym e) w) (rw e few') (rw e unlocked)
      ∙ ap (answer c'.slab) (ap (λ t. lookup later t key (hash_of key)) e ∙ found)

  value_of :
      (sl : Slab) (memory : ℕ) (payload : Payload) (sl' : Slab)
      → sl'.cells ≡ sl.cells
      → Stores key val (built payload sl memory)
      → entry_val sl' (as_entry (content (entry_for env.now key val ttl payload))) ≡ take 65535 val
  unfolding entry_val entry_for
  value_of sl memory payload sl' e stored =
      let n : length key % 2 ^ 32 ≡ length key = omega (arith, short) in
      rw (n, stored.1 sl' e) (take_val_len val)

  finish_set-get :
      (w : Wal) (b : Build) (later : ℕ)
      → Stores key val b
      → (finish_set env.now (record c { wal = w }) key val ttl b).0 ≡ Err.ok
      → (ttl ≡ 0) ⊎ (later ≤ word64 (env.now + ttl * 1_000_000_000))
      → (vc_get later (finish_set env.now (record c { wal = w }) key val ttl b).1 key).0
        ≡ (Err.ok, take 65535 val)
  unfolding finish_set
  finish_set-get w (out_of_memory sl) later stored ok in_time = cc
  finish_set-get w (built payload sl memory) later stored ok in_time =
      let s = shard_at c si in
      let ne = entry_for env.now key val ttl payload in
      let h = hash_of key in
      let has = entry_for-has_key env.now key val ttl payload short stored.0 in
      let alive = entry_for-fresh env.now later key val ttl payload in_time in
      let (found, one) = shard_set-lookup env.now s sl key h ne v few fresh later room has alive in
      let there =
        get_or-set_self c.shards si (shard_set env.now s sl key h ne).0 (new_shard 1)
          (omega (arith, wide, shard_idx-lt h (hash_of-lt key))) in
      get_at _ (shard_set env.now s sl key h ne).0 later (content ne) there
        (shard_set-IsCounted env.now s sl key h ne v room) (omega (arith, one))
        (shard_set-unlocked env.now s sl key h ne v) found
      ∙ ap (λ bs. (Err.ok, bs))
          (value_of sl memory payload _ (shard_set-cells env.now s sl key h ne) stored)

  -- In a cache of 64 shards, a set of a key of less than 4 GB, in a shard that satisfies the
  -- invariant and is not full, where the key has at most one entry and that has not expired: if the
  -- call succeeds, a get of the key at any time until the deadline returns the first 65,535 bytes
  -- of the value.
  pub vc_set-get :
      (later : ℕ)
      → (vc_set env c key val ttl).0 ≡ Err.ok
      → (ttl ≡ 0) ⊎ (later ≤ word64 (env.now + ttl * 1_000_000_000))
      → (vc_get later (vc_set env c key val ttl).1 key).0 ≡ (Err.ok, take 65535 val)
  unfolding vc_set
  vc_set-get later ok in_time = by_guard _ ok
    where
      w : Wal
      w = wal_append c.wal wal_set key val ttl env.wall

      c' : Cache
      c' = record c { wal = w }

      after : Bool → Err × Cache
      after b =
          if b
          then (Err.inval, c)
          else finish_set env.now c' key val ttl (build env c.slab c.total_memory key val)

      by_guard :
          (b : Bool)
          → (after b).0 ≡ Err.ok
          → (vc_get later (after b).1 key).0 ≡ (Err.ok, take 65535 val)
      by_guard true q = cc
      by_guard false q =
          finish_set-get w _ later (build-Stores env c.slab c.total_memory key val) q in_time
