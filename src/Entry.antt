-- ===== src/Entry.antt =====
-- One slot of the hash table of include/voidcache.h (`vc_entry_t`) and the entry helpers of
-- src/voidcache.c. The flags and the 32 payload bytes are one tagged union: the code writes just
-- these four combinations of flags. Clocks are below 2 ^ 62 ns, so `expire_ns` is never negative.
use void_cache.Prelude.{
  ℕ, List, [], Bool, false, take, drop, ltb, ◌==◌, ◌&&◌, bytes_eq, length, if◌then◌else◌,
}
use void_cache.Slab.{Slab, Block, slab_class_for, slab_free}

-- VC_STATE_*
pub data State : Type 0 where
  empty busy live dead : State

-- `flags` and `payload`; each pointer is given by what it points to, a block by its address.
pub data Payload : Type 0 where
  -- no flag: the key bytes, then the value bytes
  packed : List ℕ → Payload
  -- VAL_SLAB: the key bytes, then the pointer to the value
  slab_short : List ℕ → Block → Payload
  -- KEY_LONG | VAL_SLAB: the pointers to a copy of the key and to the value
  slab_long : List ℕ → Block → Payload
  -- KEY_LONG | VAL_MMAP: the pointers to a copy of the key and to the mapped value
  mmap_long : List ℕ → List ℕ → Payload

-- `vc_entry_t`
pub record Entry : Type 0 where
  pub state : State
  pub val_len : ℕ
  pub key_len : ℕ
  pub key_hash : ℕ
  pub expire_ns : ℕ
  pub clock_bit : ℕ
  pub probe_dist : ℕ
  pub payload : Payload

-- a zeroed slot
abbrev pub zero_entry : Entry
zero_entry = record {
  state = State.empty;
  val_len = 0;
  key_len = 0;
  key_hash = 0;
  expire_ns = 0;
  clock_bit = 0;
  probe_dist = 0;
  payload = packed [];
}

-- the bytes from the key pointer on
unfoldable pub key_bytes : Payload → List ℕ
key_bytes (packed bs) = bs
key_bytes (slab_short k b) = k
key_bytes (slab_long k b) = k
key_bytes (mmap_long k v) = k

-- the `key_len` bytes at `entry_key(e)`
unfoldable pub entry_key : Entry → List ℕ
unfolding key_bytes
entry_key e = take e.key_len (key_bytes e.payload)

unfoldable pub val_bytes : Slab → ℕ → Payload → List ℕ
val_bytes sl key_len (packed bs) = drop key_len bs
val_bytes sl key_len (slab_short k b) = sl.cells b
val_bytes sl key_len (slab_long k b) = sl.cells b
val_bytes sl key_len (mmap_long k v) = v

-- the `val_len` bytes at `entry_val(e)`
unfoldable pub entry_val : Slab → Entry → List ℕ
unfolding val_bytes
entry_val sl e = take e.val_len (val_bytes sl e.key_len e.payload)

-- `now` is `mono_ns()`.
unfoldable pub entry_expired : ℕ → Entry → Bool
entry_expired now e = if e.expire_ns == 0 then false else ltb e.expire_ns now

-- The slab class is recovered from `val_len`; the heap copy of the key and the mapping go with the
-- entry that owns them.
unfoldable pub release : Slab → ℕ → Payload → Slab
release sl val_len (packed bs) = sl
release sl val_len (slab_short k b) = slab_free sl b (slab_class_for val_len)
release sl val_len (slab_long k b) = slab_free sl b (slab_class_for val_len)
release sl val_len (mmap_long k v) = sl

unfoldable pub entry_free_resources : Slab → Entry → Slab
unfolding release
entry_free_resources sl e = release sl e.val_len e.payload

-- the test of `_shard_find` on a live slot
unfoldable pub entry_matches : ℕ → List ℕ → Entry → Bool
unfolding entry_key
entry_matches hash key e =
    e.key_hash == hash && (e.key_len == length key && bytes_eq (entry_key e) key)
