-- ===== src/Wal.antt =====
-- The write-ahead log of src/voidcache.c (`wal_init`, `wal_append`) and its record header
-- `vc_wal_hdr_t` of include/voidcache.h. The mapped file is a byte at every address, so that a write
-- beyond the ring can be seen. The caller holds `wal_lock`; `msync` and `fd` have no counterpart.
pub mod Records
mod Tests
use void_cache.Prelude.{
  ℕ, zero, suc, ◌+◌, ◌-◌, ◌*◌, ◌/◌, ◌%◌, ◌^◌, List, [], ◌∷◌, ◌++◌, Option, none, some, ltb, leb,
  ◌==◌, ◌&&◌, length, get_or, replicate, if◌then◌else◌,
}
use void_cache.Hash.{word32, xxh32}

-- `vc_wal_hdr_t`, without its padding
pub record WalHdr : Type 0 where
  pub magic : ℕ
  pub op : ℕ
  pub key_len : ℕ
  pub val_len : ℕ
  pub ttl_sec : ℕ
  pub crc32 : ℕ
  pub seq : ℕ
  pub ts_ns : ℕ

-- VC_WAL_SET, VC_WAL_DEL
abbrev pub wal_set : ℕ
wal_set = 0x53

abbrev pub wal_del : ℕ
wal_del = 0x44

-- WAL_MAGIC_V
abbrev wal_magic : ℕ
wal_magic = 0xC0CA1E01

-- sizeof(vc_wal_hdr_t)
abbrev pub hdr_size : ℕ
hdr_size = 64

-- VC_WAL_RING_SIZE
abbrev pub wal_ring_size : ℕ
wal_ring_size = 64 * 1024 * 1024

-- `vc_wal_t`; `none` for a cache without a log
pub record Wal : Type 0 where
  pub ring : Option (ℕ → ℕ)
  pub ring_size : ℕ
  pub write_pos : ℕ
  pub wal_seq : ℕ

abbrev pub no_wal : Wal
no_wal = record { ring = none; ring_size = 0; write_pos = 0; wal_seq = 0 }

-- `wal_init` for a file whose bytes are `file`, where every system call succeeds.
pub wal_init : Option (ℕ → ℕ) → Wal
wal_init none = no_wal
wal_init (some file) = record {
  ring = some file;
  ring_size = wal_ring_size;
  write_pos = 0;
  wal_seq = 0;
}

-- the bytes of a word in memory
pub bytes_of : ℕ → ℕ → List ℕ
bytes_of zero v = []
bytes_of (suc n) v = (v % 256) ∷ bytes_of n (v / 256)

-- the header in memory, by the offsets of its fields
pub hdr_bytes : WalHdr → List ℕ
unfolding bytes_of
hdr_bytes h =
    bytes_of 4 h.magic
    ++ bytes_of 1 h.op
    ++ replicate 3 0
    ++ bytes_of 4 h.key_len
    ++ bytes_of 4 h.val_len
    ++ bytes_of 4 h.ttl_sec
    ++ bytes_of 4 h.crc32
    ++ bytes_of 8 h.seq
    ++ bytes_of 8 h.ts_ns
    ++ replicate 24 0

-- `memcpy(ring + pos, bytes, n)`
pub write_at : (ℕ → ℕ) → ℕ → List ℕ → ℕ → ℕ
write_at ring pos bytes a =
    if leb pos a && ltb a (pos + length bytes) then get_or bytes (a - pos) 0 else ring a

-- the header, the key and the value, padded to 8 bytes: `(total + 7u) & ~7u`, of which the mask has
-- 32 bits
pub record_size : ℕ → ℕ → ℕ
record_size kl vl = (hdr_size + (kl + vl) + 7) % 2 ^ 32 / 8 * 8

-- the start of the next record
pub record_pos : Wal → ℕ → ℕ
record_pos w total =
    let pos = w.write_pos % w.ring_size in if ltb w.ring_size (pos + total) then 0 else pos

or_zero : Option ℕ → ℕ
or_zero none = 0
or_zero (some h) = h

-- the checksum over the operation, the key and the value
pub record_crc : ℕ → List ℕ → List ℕ → ℕ
unfolding or_zero
record_crc op key val =
    let of_op = or_zero (xxh32 (op ∷ []) 0) in
    let of_key = or_zero (xxh32 key of_op) in
    if length val == 0 then of_key else or_zero (xxh32 val of_key)

-- the header of a record; `ts` is `wall_ns()`
pub record_hdr : Wal → ℕ → List ℕ → List ℕ → ℕ → ℕ → WalHdr
record_hdr w op key val ttl ts = record {
  magic = wal_magic;
  op = op;
  key_len = word32 (length key);
  val_len = word32 (length val);
  ttl_sec = ttl;
  crc32 = record_crc op key val;
  seq = w.wal_seq;
  ts_ns = ts;
}

append_to : Wal → (ℕ → ℕ) → ℕ → List ℕ → List ℕ → ℕ → ℕ → Wal
append_to w ring op key val ttl ts =
    let total = record_size (length key) (length val) in
    let pos = record_pos w total in
    let r1 = write_at ring pos (hdr_bytes (record_hdr w op key val ttl ts)) in
    let r2 = write_at r1 (pos + hdr_size) key in
    let r3 = write_at r2 (pos + hdr_size + length key) val in
    record w { ring = some r3; write_pos = pos + total; wal_seq = (w.wal_seq + 1) % 2 ^ 64 }

-- Key and value lengths are below 2 ^ 32, as `vc_set` casts them.
pub wal_append : Wal → ℕ → List ℕ → List ℕ → ℕ → ℕ → Wal
unfolding append_to
wal_append w op key val ttl ts = elim w.ring [
  | none ↦ w
  | some ring ↦ append_to w ring op key val ttl ts
]
