-- ===== src/Proto/Write/Room.antt =====
-- `vc_buf_grow` and `APPEND` of net/proto.c: the loop ends, and there is room for the bytes.
use void_cache.Prelude.{
  ℕ, zero, suc, ◌+◌, ◌-◌, ◌*◌, ◌%◌, ◌≤◌, ◌<◌, ◌≡◌, ◌^◌, arith, refl, ap, List, ◌++◌, Option, none,
  some, Bool, true, false, length, leb, ltb, if◌then◌else◌, length-append,
}
use void_cache.Hash.{word64}
use void_cache.Proto.{Buf, grow_from, grown, vc_buf_grow}
use void_cache.Proto.Write.{put, append}

-- The buffer has some capacity, below 2 ^ 62 bytes, for the bytes in it.
pub record IsBuf (b : Buf) : Type 0 where
  pub some_room : 0 < b.cap
  pub inside : length b.bytes ≤ b.cap
  pub small : b.cap ≤ 2 ^ 62

abbrev Ends : ℕ → ℕ → Option ℕ → Type 0
Ends len need o = (nc' : ℕ) × (o ≡ some nc') × (len + need ≤ nc') × (nc' ≤ 2 ^ 62)

grow_round :
    (len need nc : ℕ) (rest : Option ℕ) (t : Bool)
    → len ≤ nc
    → nc ≤ 2 ^ 62
    → ltb (nc - len) need ≡ t
    → (nc - len < need → Ends len need rest)
    → Ends len need (if t then rest else some nc)
grow_round len need nc rest true inside small e more = more (ground (arith, e))
grow_round len need nc rest false inside small e more = (nc, refl, ground (arith, e, inside), small)

-- The loop ends in at most `need + 1` rounds, since each adds at least one byte of capacity.
grow_from-some :
    (len need nc n : ℕ)
    → 0 < nc
    → len ≤ nc
    → nc ≤ 2 ^ 62
    → len + need ≤ 2 ^ 61
    → need ≤ nc - len + n
    → Ends len need (grow_from len need nc (suc n))
unfolding grow_from
grow_from-some len need nc zero pos inside small total fuel =
    grow_round len need nc _ _ inside small refl (λ short. absurd (omega (arith, short, fuel)))
grow_from-some len need nc (suc n) pos inside small total fuel =
    grow_round len need nc _ _ inside small refl (λ short.
      let no_wrap : nc * 2 % 2 ^ 64 ≡ nc * 2 = omega (arith, small) in
      rw no_wrap (
        grow_from-some len need (nc * 2) n (omega (arith, pos)) (omega (arith, inside))
          (omega (arith, short, total)) total (omega (arith, fuel, pos))))

module _ (mem : ℕ → Bool) (all : (n : ℕ) → mem n ≡ true) where
  -- If `realloc` does not fail, growing a buffer that stays below 2 ^ 61 bytes succeeds: it keeps
  -- the bytes and makes room for `need` more.
  pub vc_buf_grow-IsBuf :
      (b : Buf) (need : ℕ)
      → IsBuf b
      → length b.bytes + need ≤ 2 ^ 61
      → (b' : Buf) × (vc_buf_grow mem b need ≡ some b')
        × (b'.bytes ≡ b.bytes)
        × (length b.bytes + need ≤ b'.cap)
        × IsBuf b'
  unfolding vc_buf_grow grown
  vc_buf_grow-IsBuf b need v total = by_room _ refl
    where
      Grows : Option Buf → Type 0
      Grows o =
          (b' : Buf) × (o ≡ some b')
          × (b'.bytes ≡ b.bytes)
          × (length b.bytes + need ≤ b'.cap)
          × IsBuf b'

      by_new :
          (o : Option ℕ) (nc : ℕ)
          → o ≡ some nc
          → length b.bytes + need ≤ nc
          → nc ≤ 2 ^ 62
          → 0 < nc
          → Grows (grown mem b o)
      by_new none nc e enough small pos = cc
      by_new (some n) nc e enough small pos =
          let same : n ≡ nc = cc in
          rw (all n) (
            record b { cap = n },
            refl,
            refl,
            omega (arith, same, enough),
            record {
              some_room = omega (arith, same, pos);
              inside = omega (arith, same, enough);
              small = omega (arith, same, small);
            },
          )

      by_room :
          (t : Bool)
          → leb need (b.cap - length b.bytes) ≡ t
          → Grows (
              if t
              then some b
              else grown mem b (grow_from (length b.bytes) need (word64 (b.cap * 2)) (need + 1)))
      by_room true e = (b, refl, refl, ground (arith, e, v.inside), v)
      by_room false e =
          let short : b.cap - length b.bytes < need = ground (arith, e) in
          let no_wrap : b.cap * 2 % 2 ^ 64 ≡ b.cap * 2 = omega (arith, v.small) in
          let rounds : need + 1 ≡ suc need = omega arith in
          let (nc, found, enough, small) =
            grow_from-some (length b.bytes) need (b.cap * 2) need (omega (arith, v.some_room))
              (omega (arith, v.inside)) (omega (arith, v.inside, short, total)) total
              (omega arith) in
          rw (no_wrap, rounds) (by_new _ nc found enough small (omega (arith, enough, short)))

  -- `APPEND` then puts the bytes behind those in the buffer.
  pub append-bytes :
      (s : List ℕ) (b : Buf)
      → IsBuf b
      → length b.bytes + length s ≤ 2 ^ 61
      → (b' : Buf) × (append mem s b ≡ (true, b')) × (b'.bytes ≡ b.bytes ++ s) × IsBuf b'
  unfolding append put
  append-bytes s b v total =
      let (b', grows, same, enough, w) = vc_buf_grow-IsBuf b (length s) v total in
      let n : length (b'.bytes ++ s) ≡ length b'.bytes + length s = length-append b'.bytes s in
      let m : length b'.bytes ≡ length b.bytes = ap length same in
      rw grows (
        record b' { bytes = b'.bytes ++ s },
        refl,
        ap (λ bs. bs ++ s) same,
        record { some_room = w.some_room; inside = omega (arith, n, m, enough); small = w.small },
      )
