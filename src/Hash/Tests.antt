-- ===== src/Hash/Tests.antt =====
-- The hash functions at known values.
use void_cache.Hash.Reads.{wyhash64_total}
use void_cache.Prelude.{ℕ, ◌<◌, ◌^◌, ◌≡◌, refl, [], ◌∷◌, some}
use void_cache.Hash.{wyhash64, xxh32, next_pow2_32}

-- the published values of XXH32 at seed 0
xxh32_values :
    (xxh32 [] 0 ≡ some 0x02CC5D05)
    × (xxh32 (b'a' ∷ []) 0 ≡ some 0x550D7456)
    × (xxh32 (b'a' ∷ b'b' ∷ b'c' ∷ []) 0 ≡ some 0x32D153FF)
unfolding xxh32
xxh32_values = (refl, refl, refl)

next_pow2_values : (next_pow2_32 0 ≡ 1) × (next_pow2_32 1000 ≡ 1024) × (next_pow2_32 1024 ≡ 1024)
unfolding next_pow2_32
next_pow2_values = (refl, refl, refl)

wyhash64_total_example : (h : ℕ) × (wyhash64 (b'a' ∷ []) 0 ≡ some h) × (h < 2 ^ 64)
wyhash64_total_example = wyhash64_total (b'a' ∷ []) 0
