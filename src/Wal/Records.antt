-- ===== src/Wal/Records.antt =====
-- Where `wal_append` of src/voidcache.c writes, and what stands there afterwards.
use void_cache.Prelude.{
  ℕ, zero, suc, ◌+◌, ◌-◌, ◌*◌, ◌/◌, ◌%◌, ◌^◌, ◌≤◌, ◌<◌, ◌≡◌, ◌⊎◌, arith, refl, sym, ◌∙◌, ap, List,
  [], ◌∷◌, ◌++◌, none, some, Bool-cases, ltb, leb, length, get_or, true, inl, inr,
}
use void_cache.Wal.{
  WalHdr, Wal, hdr_size, wal_ring_size, bytes_of, hdr_bytes, write_at, record_size, record_pos,
  record_hdr, append_to, wal_append,
}

write_at_outside :
    (ring : ℕ → ℕ) (pos : ℕ) (bs : List ℕ) (a : ℕ)
    → (pos + length bs ≤ a)
    → write_at ring pos bs a ≡ ring a
unfolding write_at
write_at_outside ring pos bs a h = ground arith

write_at_before :
    (ring : ℕ → ℕ) (pos : ℕ) (bs : List ℕ) (a : ℕ) → a < pos → write_at ring pos bs a ≡ ring a
unfolding write_at
write_at_before ring pos bs a h = ground arith

write_at_inside :
    (ring : ℕ → ℕ) (pos : ℕ) (bs : List ℕ) (i : ℕ)
    → i < length bs
    → write_at ring pos bs (pos + i) ≡ get_or bs i 0
unfolding write_at
write_at_inside ring pos bs i h =
    let e : pos + i - pos ≡ i = omega arith in
    let c : leb pos (pos + i) ≡ true = ground arith in
    let d : ltb (pos + i) (pos + length bs) ≡ true = ground arith in rw (c, d, e)

length-bytes_of : (n v : ℕ) → length (bytes_of n v) ≡ n
unfolding bytes_of
length-bytes_of zero v = refl
length-bytes_of (suc n) v = ap suc (length-bytes_of n (v / 256))

length-hdr_bytes : (h : WalHdr) → length (hdr_bytes h) ≡ hdr_size
unfolding hdr_bytes
length-hdr_bytes h = refl

-- the size of a record, padded to 8 bytes
abbrev pub padded_size : ℕ → ℕ → ℕ
padded_size kl vl = (hdr_size + (kl + vl) + 7) / 8 * 8

-- a mapped log of at most the size that the source gives it, with its position inside or at the end
pub record IsLog (w : Wal) : Type 0 where
  pub some_room : 0 < w.ring_size
  pub small : w.ring_size ≤ wal_ring_size
  pub inside : w.write_pos ≤ w.ring_size

-- the record of this header, key and value stands at `pos`, unpadded
pub record StandsAt (ring : ℕ → ℕ) (pos : ℕ) (h : WalHdr) (key val : List ℕ) : Type 0 where
  pub header : (i : ℕ) → i < hdr_size → ring (pos + i) ≡ get_or (hdr_bytes h) i 0
  pub key_there : (i : ℕ) → i < length key → ring (pos + hdr_size + i) ≡ get_or key i 0
  pub val_there : (i : ℕ) → i < length val → ring (pos + hdr_size + length key + i) ≡ get_or val i 0

-- three writes, one behind the other
writes-StandsAt :
    (ring : ℕ → ℕ) (pos : ℕ) (h : WalHdr) (key val : List ℕ)
    → let r1 = write_at ring pos (hdr_bytes h) in
      let r2 = write_at r1 (pos + hdr_size) key in
      StandsAt (write_at r2 (pos + hdr_size + length key) val) pos h key val
writes-StandsAt ring pos h key val =
    let r1 = write_at ring pos (hdr_bytes h) in
    let r2 = write_at r1 (pos + hdr_size) key in
    record {
      header = λ i hi.
          write_at_before r2 (pos + hdr_size + length key) val (pos + i) (omega arith)
          ∙ write_at_before r1 (pos + hdr_size) key (pos + i) (omega arith)
          ∙ write_at_inside ring pos (hdr_bytes h) i (omega (arith, length-hdr_bytes h));
      key_there = λ i hi.
          write_at_before r2 (pos + hdr_size + length key) val (pos + hdr_size + i) (omega arith)
          ∙ write_at_inside r1 (pos + hdr_size) key i hi;
      val_there = λ i hi. write_at_inside r2 (pos + hdr_size + length key) val i hi;
    }

get_or-append_first :
    (xs ys : List ℕ) (i : ℕ) → i < length xs → get_or (xs ++ ys) i 0 ≡ get_or xs i 0
get_or-append_first [] ys i h = absurd (omega arith)
get_or-append_first (x ∷ xs) ys zero h = refl
get_or-append_first (x ∷ xs) ys (suc i) h = get_or-append_first xs ys i (omega arith)

get_or-append_second :
    (xs ys : List ℕ) (i : ℕ) → get_or (xs ++ ys) (length xs + i) 0 ≡ get_or ys i 0
get_or-append_second [] ys i = ap (λ k. get_or ys k 0) {x = 0 + i} {y = i} (omega arith)
get_or-append_second (x ∷ xs) ys i =
    ap (λ k. get_or (x ∷ xs ++ ys) k 0) {x = suc (length xs) + i} {y = suc (length xs + i)}
      (omega arith)
    ∙ get_or-append_second xs ys i

-- a record at 0, byte by byte
StandsAt-byte :
    (ring : ℕ → ℕ) (h : WalHdr) (key val : List ℕ)
    → StandsAt ring 0 h key val
    → (a : ℕ) → a < hdr_size + length key + length val
    → ring a ≡ get_or (hdr_bytes h ++ (key ++ val)) a 0
StandsAt-byte ring h key val at a inside = elim (Bool-cases (ltb a hdr_size)) [
  | inl first ↦
      ap ring {x = a} {y = 0 + a} (omega arith)
      ∙ at.header a (ground arith)
      ∙ sym (get_or-append_first (hdr_bytes h) (key ++ val) a (ground (arith, length-hdr_bytes h)))
  | inr behind ↦ elim (Bool-cases (ltb a (hdr_size + length key))) [
    | inl second ↦
        let i = a - hdr_size in
        let a_eq : a ≡ hdr_size + i = ground arith in
        let low : i < length key = ground arith in
        ap ring a_eq
        ∙ at.key_there i low
        ∙ sym (
            ap (λ k. get_or (hdr_bytes h ++ (key ++ val)) k 0)
              (omega (arith, a_eq, length-hdr_bytes h))
            ∙ get_or-append_second (hdr_bytes h) (key ++ val) i
            ∙ get_or-append_first key val i low)
    | inr third ↦
        let i = a - (hdr_size + length key) in
        let a_eq : a ≡ hdr_size + length key + i = ground arith in
        let low : i < length val = ground arith in
        ap ring a_eq
        ∙ at.val_there i low
        ∙ sym (
            ap (λ k. get_or (hdr_bytes h ++ (key ++ val)) k 0)
              (omega (arith, a_eq, length-hdr_bytes h))
            ∙ get_or-append_second (hdr_bytes h) (key ++ val) (length key + i)
            ∙ get_or-append_second key val i)
  ]
]

writes_frame :
    (ring : ℕ → ℕ) (pos : ℕ) (h : WalHdr) (key val : List ℕ) (a : ℕ)
    → (a < pos) ⊎ (pos + hdr_size + length key + length val ≤ a)
    → let r1 = write_at ring pos (hdr_bytes h) in
      let r2 = write_at r1 (pos + hdr_size) key in
      write_at r2 (pos + hdr_size + length key) val a ≡ ring a
writes_frame ring pos h key val a (inl p) =
    let r1 = write_at ring pos (hdr_bytes h) in
    let r2 = write_at r1 (pos + hdr_size) key in
    write_at_before r2 (pos + hdr_size + length key) val a (omega arith)
    ∙ write_at_before r1 (pos + hdr_size) key a (omega arith)
    ∙ write_at_before ring pos (hdr_bytes h) a p
writes_frame ring pos h key val a (inr p) =
    let r1 = write_at ring pos (hdr_bytes h) in
    let r2 = write_at r1 (pos + hdr_size) key in
    write_at_outside r2 (pos + hdr_size + length key) val a (omega arith)
    ∙ write_at_outside r1 (pos + hdr_size) key a (omega arith)
    ∙ write_at_outside ring pos (hdr_bytes h) a (omega (arith, length-hdr_bytes h))

-- below 2 ^ 32 the mask keeps the size
record_size-padded :
    (kl vl : ℕ) → padded_size kl vl ≤ wal_ring_size → record_size kl vl ≡ padded_size kl vl
unfolding record_size
record_size-padded kl vl small = omega arith

record_size_narrow :
    (kl vl : ℕ) → hdr_size + kl + vl + 7 < 2 ^ 32 → record_size kl vl ≡ padded_size kl vl
unfolding record_size
record_size_narrow kl vl small = omega arith

record_pos_large : (w : Wal) (total : ℕ) → w.ring_size < total → record_pos w total ≡ 0
unfolding record_pos
record_pos_large w total h = ground arith

record_pos-fits :
    (w : Wal) (total : ℕ) → IsLog w → total ≤ w.ring_size → record_pos w total + total ≤ w.ring_size
unfolding record_pos
record_pos-fits w total v h = ground arith

module _ (w : Wal) (ring : ℕ → ℕ) (mapped : w.ring ≡ some ring) (op : ℕ) (key val : List ℕ)
    (ttl ts : ℕ) where
  abbrev w' : Wal
  w' = wal_append w op key val ttl ts

  abbrev start : ℕ
  start = record_pos w (record_size (length key) (length val))

  -- In a mapped log of the size of the source at most, not empty, whose position is in the ring, a
  -- record whose padded size is no larger than the ring is written inside of the ring, header first,
  -- then the key and the value; no byte before it or from the new position on changes, the position
  -- stays in the ring, and the sequence number goes up by one.
  pub wal_append_inside :
      IsLog w
      → padded_size (length key) (length val) ≤ w.ring_size
      → (ring' : ℕ → ℕ) × (w'.ring ≡ some ring')
        × StandsAt ring' start (record_hdr w op key val ttl ts) key val
        × (w'.write_pos ≡ start + record_size (length key) (length val))
        × IsLog w'
        × ((a : ℕ) → (a < start) ⊎ (w'.write_pos ≤ a) → ring' a ≡ ring a)
        × (w'.wal_seq ≡ (w.wal_seq + 1) % 2 ^ 64)
  unfolding wal_append append_to record_pos record_hdr
  wal_append_inside v fits = rw mapped (
    _,
    refl,
    writes-StandsAt ring start (record_hdr w op key val ttl ts) key val,
    refl,
    record {
      some_room = v.some_room;
      small = v.small;
      inside = record_pos-fits w _ v (omega (arith, size, fits));
    },
    λ a out. writes_frame ring start (record_hdr w op key val ttl ts) key val a (apart a out),
    refl,
  )
    where
      size : record_size (length key) (length val) ≡ padded_size (length key) (length val)
      size = record_size-padded (length key) (length val) (omega (arith, v.small, fits))

      apart :
          (a : ℕ)
          → (a < start) ⊎ (start + record_size (length key) (length val) ≤ a)
          → (a < start) ⊎ (start + hdr_size + length key + length val ≤ a)
      apart a (inl p) = inl p
      apart a (inr p) = inr (omega (arith, size))

  -- In a mapped log, a record larger than the ring and of less than 2 ^ 32 bytes with its padding is
  -- written from 0 on: the byte of the file at every address from the end of the ring on, as far as
  -- the record goes, is that of the record.
  pub wal_append_overflow :
      w.ring_size < hdr_size + length key + length val
      → hdr_size + length key + length val + 7 < 2 ^ 32
      → (ring' : ℕ → ℕ) × (w'.ring ≡ some ring')
        × ((a : ℕ)
            → w.ring_size ≤ a
            → a < hdr_size + length key + length val
            → ring' a ≡ get_or (hdr_bytes (record_hdr w op key val ttl ts) ++ (key ++ val)) a 0)
  unfolding wal_append append_to
  wal_append_overflow large narrow = (
    writes 0,
    ap (λ o. (elim o as (λ _. Wal) [ none ↦ w | some r ↦ append_to w r op key val ttl ts ]).ring)
          mapped
        ∙ ap (λ p. some (writes p)) from_zero,
    λ a past inside.
        StandsAt-byte (writes 0) (record_hdr w op key val ttl ts) key val
          (writes-StandsAt ring 0 (record_hdr w op key val ttl ts) key val) a inside,
  )
    where
      writes : ℕ → ℕ → ℕ
      writes pos =
          let r1 = write_at ring pos (hdr_bytes (record_hdr w op key val ttl ts)) in
          write_at (write_at r1 (pos + hdr_size) key) (pos + hdr_size + length key) val

      from_zero : start ≡ 0
      from_zero =
          record_pos_large w _
            (omega (arith, large, record_size_narrow (length key) (length val) narrow))
