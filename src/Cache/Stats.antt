-- ===== src/Cache/Stats.antt =====
-- `vc_stats` of src/voidcache.c.
use void_cache.Prelude.{ℕ, ◌+◌, List, [], ◌∷◌}
use void_cache.Hash.{word64}
use void_cache.Shard.{Shard}
use void_cache.Cache.{Cache}

-- `vc_global_stats_t`
pub record Stats : Type 0 where
  pub hits : ℕ
  pub misses : ℕ
  pub sets : ℕ
  pub evictions : ℕ
  pub expirations : ℕ
  pub total_keys : ℕ
  pub memory_bytes : ℕ

add_shard : Stats → Shard → Stats
add_shard o s = record o {
  hits = word64 (o.hits + s.hits);
  misses = word64 (o.misses + s.misses);
  sets = word64 (o.sets + s.sets);
  evictions = word64 (o.evictions + s.evictions);
  expirations = word64 (o.expirations + s.expirations);
  total_keys = word64 (o.total_keys + s.count);
}

add_shards : Stats → List Shard → Stats
add_shards o [] = o
add_shards o (s ∷ ss) = add_shards (add_shard o s) ss

unfoldable pub vc_stats : Cache → Stats
unfolding add_shards add_shard
vc_stats c =
    record (add_shards
      (record {
        hits = 0;
        misses = 0;
        sets = 0;
        evictions = 0;
        expirations = 0;
        total_keys = 0;
        memory_bytes = 0;
      })
      c.shards) { memory_bytes = c.total_memory }
