-- ===== src/Hash.antt =====
-- The hash functions of src/voidcache.c, on the bytes of a key: `xxh32`, the checksum of the log,
-- and `wyhash64`, which chooses the shard and the slot. A read of bytes that the key does not have
-- is `none`: C would read beyond the buffer there.
pub mod Reads
mod Tests
use void_cache.Prelude.{
  ℕ, zero, suc, ◌+◌, ◌-◌, ◌*◌, ◌/◌, ◌%◌, ◌^◌, List, [], ◌∷◌, Option, none, some, ltb, leb, length,
  drop, get_or, bit_or, bit_xor, if◌then◌else◌, ◌>>=◌,
}

abbrev pub word32 : ℕ → ℕ
word32 n = n % 2 ^ 32

abbrev pub word64 : ℕ → ℕ
word64 n = n % 2 ^ 64

-- `memcpy` of `n` bytes from offset `off` into a little-endian word
little_endian : ℕ → List ℕ → ℕ
little_endian zero bs = 0
little_endian (suc n) [] = 0
little_endian (suc n) (b ∷ bs) = b + 256 * little_endian n bs

pub read : ℕ → List ℕ → ℕ → Option ℕ
unfolding little_endian
read n data_bytes off =
    if leb (off + n) (length data_bytes) then some (little_endian n (drop off data_bytes)) else none

-- next_pow2_32
pub next_pow2_32 : ℕ → ℕ
next_pow2_32 zero = 1
next_pow2_32 (suc v) =
    let v1 = bit_or v (v / 2) in
    let v2 = bit_or v1 (v1 / 2 ^ 2) in
    let v3 = bit_or v2 (v2 / 2 ^ 4) in
    let v4 = bit_or v3 (v3 / 2 ^ 8) in let v5 = bit_or v4 (v4 / 2 ^ 16) in word32 (v5 + 1)

pub rotl32 : ℕ → ℕ → ℕ
rotl32 x r = bit_or (word32 (x * 2 ^ r)) (x / 2 ^ (32 - r))

-- XXH_PRIME1 to XXH_PRIME5
abbrev xxh_prime1 : ℕ
xxh_prime1 = 0x9E3779B1

abbrev xxh_prime2 : ℕ
xxh_prime2 = 0x85EBCA77

abbrev xxh_prime3 : ℕ
xxh_prime3 = 0xC2B2AE3D

abbrev xxh_prime4 : ℕ
xxh_prime4 = 0x27D4EB2F

abbrev xxh_prime5 : ℕ
xxh_prime5 = 0x165667B1

-- `v1` to `v4`
record Lanes : Type 0 where
  v1 : ℕ
  v2 : ℕ
  v3 : ℕ
  v4 : ℕ

-- `rotl32(v + word * XXH_PRIME2, 13) * XXH_PRIME1`
lane : ℕ → ℕ → ℕ
unfolding rotl32
lane v word = word32 (rotl32 (word32 (v + word * xxh_prime2)) 13 * xxh_prime1)

-- The `do ... while (p <= end - 16)` from offset `off`; `n` bounds the rounds.
xxh_stripes : ℕ → List ℕ → ℕ → Lanes → Option (ℕ × Lanes)
xxh_stripes zero bs off v = none
xxh_stripes (suc n) bs off v = do
  w1 ← read 4 bs off
  w2 ← read 4 bs (off + 4)
  w3 ← read 4 bs (off + 8)
  w4 ← read 4 bs (off + 12)
  let v' : Lanes = record {
    v1 = lane v.v1 w1;
    v2 = lane v.v2 w2;
    v3 = lane v.v3 w3;
    v4 = lane v.v4 w4;
  }
  let rest = xxh_stripes n bs (off + 16) v'
  if leb (off + 16 + 16) (length bs) then rest else some (off + 16, v')

-- `while (p <= end - 4)`
xxh_words : ℕ → List ℕ → ℕ → ℕ → Option (ℕ × ℕ)
xxh_words zero bs off h = none
xxh_words (suc n) bs off h =
    let more = read 4 bs off >>= λ w.
    xxh_words n bs (off + 4) (word32 (rotl32 (word32 (h + w * xxh_prime3)) 17 * xxh_prime4)) in
    if leb (off + 4) (length bs) then more else some (off, h)

-- `while (p < end)`
xxh_bytes : ℕ → List ℕ → ℕ → ℕ → Option ℕ
xxh_bytes zero bs off h = none
xxh_bytes (suc n) bs off h =
    let more = read 1 bs off >>= λ b.
    xxh_bytes n bs (off + 1) (word32 (rotl32 (word32 (h + b * xxh_prime5)) 11 * xxh_prime1)) in
    if ltb off (length bs) then more else some h

xxh_avalanche : ℕ → ℕ
xxh_avalanche h0 =
    let h1 = word32 (bit_xor h0 (h0 / 2 ^ 15) * xxh_prime2) in
    let h2 = word32 (bit_xor h1 (h1 / 2 ^ 13) * xxh_prime3) in bit_xor h2 (h2 / 2 ^ 16)

xxh_start : List ℕ → ℕ → Option (ℕ × ℕ)
xxh_start bs seed = if leb 16 (length bs) then long else some (0, word32 (seed + xxh_prime5))
  where
    start : Lanes
    start = record {
      v1 = word32 (seed + xxh_prime1 + xxh_prime2);
      v2 = word32 (seed + xxh_prime2);
      v3 = seed;
      v4 = word32 (seed + 2 ^ 32 - xxh_prime1);
    }

    long : Option (ℕ × ℕ)
    long = do
      (off, v) ← xxh_stripes (length bs) bs 0 start
      some (off, word32 (rotl32 v.v1 1 + rotl32 v.v2 7 + rotl32 v.v3 12 + rotl32 v.v4 18))

pub xxh32 : List ℕ → ℕ → Option ℕ
unfolding xxh_start xxh_stripes xxh_words xxh_bytes xxh_avalanche lane rotl32 read
xxh32 bs seed = do
  (off, h) ← xxh_start bs seed
  (off', h') ← xxh_words (suc (length bs)) bs off (word32 (h + length bs))
  h'' ← xxh_bytes (suc (length bs)) bs off' h'
  some (xxh_avalanche h'')

-- `_wymix`
wymix : ℕ → ℕ → ℕ
wymix a b = bit_xor (word64 (a * b)) (word64 (a * b / 2 ^ 64))

-- `while (i > 32)`; `p` is at offset `off`, and `i` bytes are left.
wy_blocks : ℕ → List ℕ → ℕ → ℕ → ℕ → ℕ → Option (ℕ × ℕ × ℕ × ℕ)
wy_blocks zero bs off i a b = none
wy_blocks (suc n) bs off i a b =
    let more = (do
      x ← read 8 bs off
      y ← read 8 bs (off + 8)
      let a' = wymix (bit_xor a x) (bit_xor b y)
      x' ← read 8 bs (off + 16)
      y' ← read 8 bs (off + 24)
      let b' = wymix (bit_xor a' x') (bit_xor b y')
      wy_blocks n bs (off + 32) (i - 32) a' b') in
    if ltb 32 i then more else some (off, i, a, b)

-- `if (i > 16)`
wy_half_block : List ℕ → ℕ × ℕ × ℕ × ℕ → Option (ℕ × ℕ × ℕ × ℕ)
wy_half_block bs (off, i, a, b) = if ltb 16 i then half else some (off, i, a, b)
  where
    half : Option (ℕ × ℕ × ℕ × ℕ)
    half = do
      x ← read 8 bs off
      y ← read 8 bs (off + 8)
      some (off + 16, i - 16, wymix (bit_xor a x) (bit_xor b y), b)

-- the last bytes, by two overlapping reads; `p + i - 16` and `p + i - 8` are computed from `p + i`
wy_last : List ℕ → ℕ × ℕ × ℕ × ℕ → Option (ℕ × ℕ)
wy_last bs (off, i, a, b) = do
  x ← read 8 bs (off + i - 16 + (if ltb 8 i then 0 else 8 - i))
  y ← read 8 bs (off + i - 8)
  some (bit_xor a x, bit_xor b y)

wy_long : List ℕ → Option (ℕ × ℕ)
wy_long bs = do
  s ← wy_blocks (length bs) bs 0 (length bs) 0 0
  s' ← wy_half_block bs s
  wy_last bs s'

-- at most 16 bytes: four overlapping reads of four bytes, or three single bytes; the last offset
-- is `len - 4 - (len >> 1) + 2`, whose terms are added first
wy_short : List ℕ → ℕ → Option (ℕ × ℕ)
wy_short bs len = if leb 4 len then four else if ltb 0 len then three else some (0, 0)
  where
    four : Option (ℕ × ℕ)
    four = do
      lo ← read 4 bs 0
      hi ← read 4 bs (len / 2 - 2)
      lo2 ← read 4 bs (len - 4)
      hi2 ← read 4 bs (len + 2 - 4 - len / 2)
      some (bit_or (lo * 2 ^ 32) hi, bit_or (lo2 * 2 ^ 32) hi2)

    three : Option (ℕ × ℕ)
    three = do
      p0 ← read 1 bs 0
      p1 ← read 1 bs (len / 2)
      p2 ← read 1 bs (len - 1)
      some (bit_or (bit_or (p0 * 2 ^ 16) (p1 * 2 ^ 8)) p2, 0)

pub wyhash64 : List ℕ → ℕ → Option ℕ
unfolding wy_short wy_long wy_blocks wy_half_block wy_last wymix read
wyhash64 bs seed = do
  let seed' = bit_xor seed (wymix (bit_xor seed 0x9e3779b97f4a7c15) 0xa0761d6478bd642f)
  (a, b) ← (if leb (length bs) 16 then wy_short bs (length bs) else wy_long bs)
  some (
      wymix (bit_xor seed' (length bs))
        (wymix (bit_xor a 0x9e3779b97f4a7c15) (bit_xor b 0xe7037ed1a0b428db)))

-- VC_SHARD_BITS, VC_NUM_SHARDS
abbrev pub shard_bits : ℕ
shard_bits = 6

abbrev pub num_shards : ℕ
num_shards = 2 ^ shard_bits

pub shard_idx : ℕ → ℕ
shard_idx h = h / 2 ^ (64 - shard_bits)
