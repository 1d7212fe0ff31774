-- ===== src/Cache/Remove.antt =====
-- `vc_del` and `vc_flush` of src/voidcache.c.
use void_cache.Prelude.{ℕ, List, [], ◌∷◌, Option, none, some, set}
use void_cache.Hash.{shard_idx}
use void_cache.Slab.{Slab}
use void_cache.Entry.{State, empty, live, Entry, entry_free_resources}
use void_cache.Shard.{Shard, shard_find, shard_bury, buried}
use void_cache.Shard.Locks.{shard_lock, shard_unlock, seq_write_begin, seq_write_end}
use void_cache.Wal.{wal_append, wal_del}
use void_cache.Cache.{Err, Cache, Env, hash_of, shard_at}

unfoldable pub shard_del_found : Shard → Slab → Option ℕ → Err × Shard × Slab
shard_del_found s sl none = (Err.notfnd, shard_unlock (seq_write_end s), sl)
shard_del_found s sl (some slot) =
    let (s', sl') = shard_bury s sl slot in (Err.ok, shard_unlock (seq_write_end s'), sl')

unfoldable pub shard_del : ℕ → Shard → Slab → List ℕ → ℕ → Err × Shard × Slab
unfolding shard_del_found
shard_del now s sl key h =
    let s0 = seq_write_begin (shard_lock s) in shard_del_found s0 sl (shard_find now s0 key h)

unfoldable pub vc_del : Env → Cache → List ℕ → Err × Cache
vc_del env c key =
    let h = hash_of key in
    let si = shard_idx h in
    let wal = wal_append c.wal wal_del key [] 0 env.wall in
    let (err, s, sl) = shard_del env.now (shard_at c si) c.slab key h in
    (err, record c { shards = set c.shards si s; slab = sl; wal = wal })

-- one slot, and all slots, of the loop of `vc_flush`
unfoldable pub flush_entry : Slab → Entry → State → Entry × Slab
flush_entry sl e live = (buried e, entry_free_resources sl e)
flush_entry sl e empty = (e, sl)
flush_entry sl e State.busy = (e, sl)
flush_entry sl e State.dead = (e, sl)

unfoldable pub flush_table : Slab → List Entry → List Entry × Slab
unfolding flush_entry
flush_table sl [] = ([], sl)
flush_table sl (e ∷ es) =
    let (e', sl1) = flush_entry sl e e.state in
    let (es', sl2) = flush_table sl1 es in (e' ∷ es', sl2)

unfoldable pub flush_shard : Shard → Slab → Shard × Slab
flush_shard s sl =
    let s0 = seq_write_begin (shard_lock s) in
    let (t, sl') = flush_table sl s0.table in
    (shard_unlock (seq_write_end (record s0 { table = t; count = 0 })), sl')

unfoldable pub flush_shards : Slab → List Shard → List Shard × Slab
unfolding flush_shard
flush_shards sl [] = ([], sl)
flush_shards sl (s ∷ ss) =
    let (s', sl1) = flush_shard s sl in let (ss', sl2) = flush_shards sl1 ss in (s' ∷ ss', sl2)

unfoldable pub vc_flush : Cache → Cache
unfolding flush_shards flush_table
vc_flush c = let (ss, sl) = flush_shards c.slab c.shards in record c { shards = ss; slab = sl }
