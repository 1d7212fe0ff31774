-- ===== src/Auth/Sha256.antt =====
-- `vc_sha256` of net/auth.c. The allocation of the padded copy succeeds.
use void_cache.Prelude.{
  ℕ, zero, suc, ◌+◌, ◌-◌, ◌*◌, ◌/◌, ◌%◌, ◌^◌, ◌≤◌, ◌<◌, ◌≡◌, arith, refl, List, [], ◌∷◌, ◌++◌,
  length, take, drop, get_or, replicate, bit_and, bit_or, bit_xor, length-append,
}
use void_cache.Hash.{word32}

-- ROR32, CH, MAJ, EP0, EP1, SIG0, SIG1 on 32-bit words
ror32 : ℕ → ℕ → ℕ
ror32 x n = bit_or (x / 2 ^ n) (word32 (x * 2 ^ (32 - n)))

ch : ℕ → ℕ → ℕ → ℕ
ch x y z = bit_xor (bit_and x y) (bit_and (2 ^ 32 - 1 - x) z)

maj : ℕ → ℕ → ℕ → ℕ
maj x y z = bit_xor (bit_xor (bit_and x y) (bit_and x z)) (bit_and y z)

ep0 : ℕ → ℕ
unfolding ror32
ep0 x = bit_xor (bit_xor (ror32 x 2) (ror32 x 13)) (ror32 x 22)

ep1 : ℕ → ℕ
unfolding ror32
ep1 x = bit_xor (bit_xor (ror32 x 6) (ror32 x 11)) (ror32 x 25)

sig0 : ℕ → ℕ
unfolding ror32
sig0 x = bit_xor (bit_xor (ror32 x 7) (ror32 x 18)) (x / 2 ^ 3)

sig1 : ℕ → ℕ
unfolding ror32
sig1 x = bit_xor (bit_xor (ror32 x 17) (ror32 x 19)) (x / 2 ^ 10)

abbrev k256 : List ℕ
k256 =
    0x428a2f98 ∷ 0x71374491 ∷ 0xb5c0fbcf ∷ 0xe9b5dba5 ∷ 0x3956c25b ∷ 0x59f111f1 ∷ 0x923f82a4
    ∷ 0xab1c5ed5 ∷ 0xd807aa98 ∷ 0x12835b01 ∷ 0x243185be ∷ 0x550c7dc3 ∷ 0x72be5d74 ∷ 0x80deb1fe
    ∷ 0x9bdc06a7 ∷ 0xc19bf174 ∷ 0xe49b69c1 ∷ 0xefbe4786 ∷ 0x0fc19dc6 ∷ 0x240ca1cc ∷ 0x2de92c6f
    ∷ 0x4a7484aa ∷ 0x5cb0a9dc ∷ 0x76f988da ∷ 0x983e5152 ∷ 0xa831c66d ∷ 0xb00327c8 ∷ 0xbf597fc7
    ∷ 0xc6e00bf3 ∷ 0xd5a79147 ∷ 0x06ca6351 ∷ 0x14292967 ∷ 0x27b70a85 ∷ 0x2e1b2138 ∷ 0x4d2c6dfc
    ∷ 0x53380d13 ∷ 0x650a7354 ∷ 0x766a0abb ∷ 0x81c2c92e ∷ 0x92722c85 ∷ 0xa2bfe8a1 ∷ 0xa81a664b
    ∷ 0xc24b8b70 ∷ 0xc76c51a3 ∷ 0xd192e819 ∷ 0xd6990624 ∷ 0xf40e3585 ∷ 0x106aa070 ∷ 0x19a4c116
    ∷ 0x1e376c08 ∷ 0x2748774c ∷ 0x34b0bcb5 ∷ 0x391c0cb3 ∷ 0x4ed8aa4a ∷ 0x5b9cca4f ∷ 0x682e6ff3
    ∷ 0x748f82ee ∷ 0x78a5636f ∷ 0x84c87814 ∷ 0x8cc70208 ∷ 0x90befffa ∷ 0xa4506ceb ∷ 0xbef9a3f7
    ∷ 0xc67178f2 ∷ []

-- the eight words `h`, and `a` to `hh` in a block
record Digest : Type 0 where
  a : ℕ
  b : ℕ
  c : ℕ
  d : ℕ
  e : ℕ
  f : ℕ
  g : ℕ
  h : ℕ

start : Digest
start = record {
  a = 0x6a09e667;
  b = 0xbb67ae85;
  c = 0x3c6ef372;
  d = 0xa54ff53a;
  e = 0x510e527f;
  f = 0x9b05688c;
  g = 0x1f83d9ab;
  h = 0x5be0cd19;
}

-- the low `n` bytes of `x`, the lowest last, in front of `tail`
big_endian : ℕ → ℕ → List ℕ → List ℕ
big_endian zero x tail = tail
big_endian (suc n) x tail = big_endian n (x / 256) ((x % 256) ∷ tail)

-- `(len + 9 + 63) & ~63`
unfoldable pub padded_len : ℕ → ℕ
padded_len len = (len + 9 + 63) / 64 * 64

unfoldable pub padded : List ℕ → List ℕ
unfolding padded_len big_endian
padded msg =
    let len = length msg in
    msg ++ (0x80 ∷ (replicate (padded_len len - len - 9) 0 ++ big_endian 8 (len * 8 % 2 ^ 64) []))

-- the first sixteen words of a block, the last one first
block_words : ℕ → List ℕ → List ℕ → List ℕ
block_words zero bs ws = ws
block_words (suc n) bs ws =
    block_words n (drop 4 bs) (
      (get_or bs 0 0 * 2 ^ 24 + get_or bs 1 0 * 2 ^ 16 + get_or bs 2 0 * 2 ^ 8 + get_or bs 3 0)
      ∷ ws)

-- the other words; `w[i-2]` is the second of those there are, and so on
schedule : ℕ → List ℕ → List ℕ
schedule zero ws = ws
schedule (suc n) ws =
    schedule n
      (word32 (sig1 (get_or ws 1 0) + get_or ws 6 0 + sig0 (get_or ws 14 0) + get_or ws 15 0) ∷ ws)

round : ℕ → ℕ → Digest → Digest
round k w s =
    let t1 = word32 (s.h + ep1 s.e + ch s.e s.f s.g + k + w) in
    let t2 = word32 (ep0 s.a + maj s.a s.b s.c) in
    record {
      a = word32 (t1 + t2);
      b = s.a;
      c = s.b;
      d = s.c;
      e = word32 (s.d + t1);
      f = s.e;
      g = s.f;
      h = s.g;
    }

rounds : List ℕ → List ℕ → Digest → Digest
rounds [] ws s = s
rounds (k ∷ ks) [] s = s
rounds (k ∷ ks) (w ∷ ws) s = rounds ks ws (round k w s)

reverse_onto : List ℕ → List ℕ → List ℕ
reverse_onto [] ys = ys
reverse_onto (x ∷ xs) ys = reverse_onto xs (x ∷ ys)

one_block : List ℕ → Digest → Digest
one_block block s =
    let ws = reverse_onto (schedule 48 (block_words 16 block [])) [] in
    let r = rounds k256 ws s in
    record {
      a = word32 (s.a + r.a);
      b = word32 (s.b + r.b);
      c = word32 (s.c + r.c);
      d = word32 (s.d + r.d);
      e = word32 (s.e + r.e);
      f = word32 (s.f + r.f);
      g = word32 (s.g + r.g);
      h = word32 (s.h + r.h);
    }

blocks : ℕ → List ℕ → Digest → Digest
blocks zero bs s = s
blocks (suc n) bs s = blocks n (drop 64 bs) (one_block (take 64 bs) s)

out_bytes : Digest → List ℕ
unfolding big_endian
out_bytes s = big_endian 4 s.a (
    big_endian 4 s.b (
      big_endian 4 s.c (
        big_endian 4 s.d
          (big_endian 4 s.e (big_endian 4 s.f (big_endian 4 s.g (big_endian 4 s.h [])))))))

unfoldable pub vc_sha256 : List ℕ → List ℕ
unfolding out_bytes blocks one_block rounds round reverse_onto schedule block_words start ep0 ep1
    sig0 sig1 ch maj
vc_sha256 msg = out_bytes (blocks (padded_len (length msg) / 64) (padded msg) start)

length-big_endian : (n x : ℕ) (tail : List ℕ) → length (big_endian n x tail) ≡ n + length tail
unfolding big_endian
length-big_endian zero x tail = omega arith
length-big_endian (suc n) x tail = omega (arith, length-big_endian n (x / 256) ((x % 256) ∷ tail))

length-zeros : (n : ℕ) → length {A = ℕ} (replicate n 0) ≡ n
length-zeros zero = refl
length-zeros (suc n) = omega (arith, length-zeros n)

-- The padded message fills whole blocks of 64 bytes, has room for the end mark and the length
-- after the message, and is as short as that allows.
pub length-padded :
    (msg : List ℕ)
    → (length (padded msg) % 64 ≡ 0)
      × (length msg + 9 ≤ length (padded msg))
      × (length (padded msg) < length msg + 9 + 64)
unfolding padded padded_len
length-padded msg =
    let len = length msg in
    let zeros = replicate ((len + 9 + 63) / 64 * 64 - len - 9) 0 in
    let tail = big_endian 8 (len * 8 % 2 ^ 64) [] in
    let n = length-append msg (0x80 ∷ (zeros ++ tail)) in
    let m = length-append zeros tail in
    let z = length-zeros ((len + 9 + 63) / 64 * 64 - len - 9) in
    let t = length-big_endian 8 (len * 8 % 2 ^ 64) [] in
    (omega (arith, n, m, z, t), omega (arith, n, m, z, t), omega (arith, n, m, z, t))
