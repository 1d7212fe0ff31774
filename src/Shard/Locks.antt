-- ===== src/Shard/Locks.antt =====
-- The spinlock and the sequence counter of a shard in src/voidcache.c, for a call that runs alone:
-- the lock is free and the counter is even, so neither wait takes a second round.
use void_cache.Prelude.{ℕ, Bool, not, ◌==◌}
use void_cache.Shard.{Shard, inc64}

unfoldable pub shard_lock : Shard → Shard
shard_lock s = record s { wlock = 1 }

unfoldable pub shard_unlock : Shard → Shard
shard_unlock s = record s { wlock = 0 }

unfoldable pub seq_read_begin : Shard → ℕ
seq_read_begin s = s.seq

unfoldable pub seq_read_retry : Shard → ℕ → Bool
seq_read_retry s seq = not (s.seq == seq)

unfoldable pub seq_write_begin : Shard → Shard
seq_write_begin s = record s { seq = inc64 s.seq }

unfoldable pub seq_write_end : Shard → Shard
seq_write_end s = record s { seq = inc64 s.seq }
