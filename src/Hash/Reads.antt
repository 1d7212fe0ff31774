-- ===== src/Hash/Reads.antt =====
-- The hash functions of src/voidcache.c read no byte outside of the key, and return words.
use void_cache.Prelude.{
  ℕ, zero, suc, ◌+◌, ◌-◌, ◌*◌, ◌/◌, ◌^◌, ◌≤◌, ◌<◌, ◌≡◌, arith, refl, Bool, true, false, List,
  Option, some, ltb, leb, length, drop, if◌then◌else◌, ◌>>=◌,
}
use void_cache.Prelude.Words.{bit_xor-lt}
use void_cache.Hash.{
  read, little_endian, Lanes, xxh_stripes, xxh_words, xxh_bytes, xxh_avalanche, xxh_start, xxh32,
  wymix, wy_blocks, wy_half_block, wy_last, wy_long, wy_short, wyhash64, shard_idx, num_shards,
}

-- the computation has a result, and it satisfies `P`
abbrev Yields : {A : Type 0} → (A → Type 0) → Option A → Type 0
Yields {A} P o = (a : A) × (o ≡ some a) × P a

Yields-bind :
    {A B : Type 0} {P : A → Type 0} {Q : B → Type 0} (m : Option A) (f : A → Option B)
    → Yields P m
    → ((a : A) → P a → Yields Q (f a))
    → Yields Q (m >>= f)
Yields-bind m f (a, e, p) next = let (b, e', q) = next a p in (b, rw e e', q)

Yields-if :
    {A : Type 0} {P : A → Type 0} (b : Bool) (m n : Option A)
    → (b ≡ true → Yields P m)
    → (b ≡ false → Yields P n)
    → Yields P (if b then m else n)
Yields-if true m n yes_m no_n = yes_m refl
Yields-if false m n yes_m no_n = no_n refl

abbrev Any : ℕ → Type 0
Any n = Unit {0}

read-Yields : (n : ℕ) (bs : List ℕ) (off : ℕ) → off + n ≤ length bs → Yields Any (read n bs off)
unfolding read
read-Yields n bs off h = (little_endian n (drop off bs), ground arith, tt)

-- a state of the wyhash loop: `off` bytes are done and `i` are left
abbrev Splits : List ℕ → ℕ × ℕ × ℕ × ℕ → Type 0
Splits bs (off, i, a, b) = off + i ≡ length bs

wy_blocks-Yields :
    (n : ℕ) (bs : List ℕ) (off i a b : ℕ)
    → off + i ≡ length bs
    → i ≤ n * 32
    → 0 < n
    → Yields (Splits bs) (wy_blocks n bs off i a b)
unfolding wy_blocks
wy_blocks-Yields zero bs off i a b h fuel pos = absurd (omega arith)
wy_blocks-Yields (suc n) bs off i a b h fuel pos =
    Yields-if (ltb 32 i) _ _
      (λ big.
        let more : 32 < i = ground (arith, big) in
        Yields-bind _ _ (read-Yields 8 bs off (omega arith)) λ x _.
          Yields-bind _ _ (read-Yields 8 bs (off + 8) (omega arith)) λ y _.
            Yields-bind _ _ (read-Yields 8 bs (off + 16) (omega arith)) λ x' _.
              Yields-bind _ _ (read-Yields 8 bs (off + 24) (omega arith)) λ y' _.
                wy_blocks-Yields n bs (off + 32) (i - 32) _ _ (omega arith) (omega arith)
                  (omega arith))
      (λ small. ((off, i, a, b), refl, h))

wy_half_block-Yields :
    (bs : List ℕ) (s : ℕ × ℕ × ℕ × ℕ) → Splits bs s → Yields (Splits bs) (wy_half_block bs s)
unfolding wy_half_block
wy_half_block-Yields bs (off, i, a, b) h =
    Yields-if (ltb 16 i) _ _
      (λ big.
        let more : 16 < i = ground (arith, big) in
        Yields-bind _ _ (read-Yields 8 bs off (omega arith)) λ x _.
          Yields-bind _ _ (read-Yields 8 bs (off + 8) (omega arith))
            λ y _. ((off + 16, i - 16, _, b), refl, omega arith))
      (λ small. ((off, i, a, b), refl, h))

wy_last-Yields :
    (bs : List ℕ) (s : ℕ × ℕ × ℕ × ℕ)
    → Splits bs s
    → 16 < length bs
    → Yields (λ _. Unit {0}) (wy_last bs s)
unfolding wy_last
wy_last-Yields bs (off, i, a, b) h long =
    Yields-bind _ _ (read-Yields 8 bs _ (ground arith))
      λ x _. Yields-bind _ _ (read-Yields 8 bs (off + i - 8) (omega arith)) λ y _. (_, refl, tt)

wy_short-Yields : (bs : List ℕ) → length bs ≤ 16 → Yields (λ _. Unit {0}) (wy_short bs (length bs))
unfolding wy_short
wy_short-Yields bs short =
    Yields-if (leb 4 (length bs)) _ _
      (λ big.
        let four : 4 ≤ length bs = ground (arith, big) in
        Yields-bind _ _ (read-Yields 4 bs 0 (omega arith)) λ lo _.
          Yields-bind _ _ (read-Yields 4 bs (length bs / 2 - 2) (omega arith)) λ hi _.
            Yields-bind _ _ (read-Yields 4 bs (length bs - 4) (omega arith)) λ lo2 _.
              Yields-bind _ _ (read-Yields 4 bs (length bs + 2 - 4 - length bs / 2) (omega arith))
                λ hi2 _. (_, refl, tt))
      (λ _.
        Yields-if (ltb 0 (length bs)) _ _
          (λ some_bytes.
            let one : 0 < length bs = ground (arith, some_bytes) in
            Yields-bind _ _ (read-Yields 1 bs 0 (omega arith)) λ p0 _.
              Yields-bind _ _ (read-Yields 1 bs (length bs / 2) (omega arith)) λ p1 _.
                Yields-bind _ _ (read-Yields 1 bs (length bs - 1) (omega arith))
                  λ p2 _. (_, refl, tt))
          (λ _. (_, refl, tt)))

wy_long-Yields : (bs : List ℕ) → 16 < length bs → Yields (λ _. Unit {0}) (wy_long bs)
unfolding wy_long
wy_long-Yields bs long =
    Yields-bind _ _
      (wy_blocks-Yields (length bs) bs 0 (length bs) 0 0 (omega arith) (omega arith) (omega arith))
      λ s h. Yields-bind _ _ (wy_half_block-Yields bs s h) λ s' h'. wy_last-Yields bs s' h' long

wymix-lt : (a b : ℕ) → wymix a b < 2 ^ 64
unfolding wymix
wymix-lt a b = bit_xor-lt 64 _ _ (omega arith) (omega arith)

-- For a key of any length `wyhash64` reads inside the key only, its fuel is enough, and the hash
-- that it returns is a word of 64 bits.
pub wyhash64_total : (bs : List ℕ) (seed : ℕ) → (h : ℕ) × (wyhash64 bs seed ≡ some h) × (h < 2 ^ 64)
unfolding wyhash64
wyhash64_total bs seed =
    Yields-bind _ _
      (Yields-if (leb (length bs) 16) _ _ (λ short. wy_short-Yields bs (ground (arith, short)))
        (λ long. wy_long-Yields bs (ground (arith, long))))
      λ (a, b) _. (_, refl, wymix-lt _ _)

-- The shard that a 64-bit hash selects is one of the 64.
pub shard_idx-lt : (h : ℕ) → h < 2 ^ 64 → shard_idx h < num_shards
unfolding shard_idx
shard_idx-lt h p = omega arith

-- `xxh_stripes` leaves fewer than 16 bytes
xxh_stripes-Yields :
    (n : ℕ) (bs : List ℕ) (off : ℕ) (v : Lanes)
    → off + 16 ≤ length bs
    → length bs ≤ off + n
    → Yields (λ r. r.0 ≤ length bs) (xxh_stripes n bs off v)
unfolding xxh_stripes
xxh_stripes-Yields zero bs off v h fuel = absurd (omega arith)
xxh_stripes-Yields (suc n) bs off v h fuel =
    Yields-bind _ _ (read-Yields 4 bs off (omega arith)) λ w1 _.
      Yields-bind _ _ (read-Yields 4 bs (off + 4) (omega arith)) λ w2 _.
        Yields-bind _ _ (read-Yields 4 bs (off + 8) (omega arith)) λ w3 _.
          Yields-bind _ _ (read-Yields 4 bs (off + 12) (omega arith)) λ w4 _.
            Yields-if (leb (off + 16 + 16) (length bs)) _ _
              (λ more. xxh_stripes-Yields n bs (off + 16) _ (ground (arith, more)) (omega arith))
              (λ done. (_, refl, omega arith))

xxh_words-Yields :
    (n : ℕ) (bs : List ℕ) (off h : ℕ)
    → off ≤ length bs
    → length bs < off + n
    → Yields (λ r. r.0 ≤ length bs) (xxh_words n bs off h)
unfolding xxh_words
xxh_words-Yields zero bs off h le fuel = absurd (omega arith)
xxh_words-Yields (suc n) bs off h le fuel =
    Yields-if (leb (off + 4) (length bs)) _ _
      (λ more.
        let fits : off + 4 ≤ length bs = ground (arith, more) in
        Yields-bind _ _ (read-Yields 4 bs off fits)
          λ w _. xxh_words-Yields n bs (off + 4) _ fits (omega arith))
      (λ done. (_, refl, le))

xxh_bytes-Yields :
    (n : ℕ) (bs : List ℕ) (off h : ℕ)
    → off ≤ length bs
    → length bs < off + n
    → Yields Any (xxh_bytes n bs off h)
unfolding xxh_bytes
xxh_bytes-Yields zero bs off h le fuel = absurd (omega arith)
xxh_bytes-Yields (suc n) bs off h le fuel =
    Yields-if (ltb off (length bs)) _ _
      (λ more.
        let fits : off + 1 ≤ length bs = ground (arith, more) in
        Yields-bind _ _ (read-Yields 1 bs off fits)
          λ b _. xxh_bytes-Yields n bs (off + 1) _ fits (omega arith))
      (λ done. (_, refl, tt))

xxh_start-Yields : (bs : List ℕ) (seed : ℕ) → Yields (λ r. r.0 ≤ length bs) (xxh_start bs seed)
unfolding xxh_start
xxh_start-Yields bs seed =
    Yields-if (leb 16 (length bs)) _ _
      (λ long.
        let some_stripes : 16 ≤ length bs = ground (arith, long) in
        Yields-bind _ _ (xxh_stripes-Yields (length bs) bs 0 _ (omega arith) (omega arith))
          λ (off, v) le. (_, refl, le))
      (λ short. (_, refl, omega arith))

xxh_avalanche-lt : (h : ℕ) → xxh_avalanche h < 2 ^ 32
unfolding xxh_avalanche
xxh_avalanche-lt h = bit_xor-lt 32 _ _ (omega arith) (omega arith)

-- For data of any length `xxh32` reads inside the data only, its loops end, and the checksum is a
-- word of 32 bits.
pub xxh32_total : (bs : List ℕ) (seed : ℕ) → (h : ℕ) × (xxh32 bs seed ≡ some h) × (h < 2 ^ 32)
unfolding xxh32
xxh32_total bs seed = Yields-bind _ _ (xxh_start-Yields bs seed) λ (off, h) le.
    Yields-bind _ _ (xxh_words-Yields (suc (length bs)) bs off _ le (omega arith)) λ (off', h') le'.
      Yields-bind _ _ (xxh_bytes-Yields (suc (length bs)) bs off' h' le' (omega arith))
        λ h'' _. (_, refl, xxh_avalanche-lt h'')
