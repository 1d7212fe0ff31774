-- ===== src/Cluster/Slots.antt =====
-- Which keys of net/cluster.c share a slot.
use void_cache.Prelude.{
  ℕ, zero, suc, ◌+◌, ◌%◌, ◌^◌, ◌<◌, ◌≡◌, ◌≢◌, arith, refl, Bool, true, false, List, [], ◌∷◌, ◌++◌,
  some, length, drop, ◌==◌, ◌/◌, ◌*◌, bit_xor, get_or, if◌then◌else◌, ◌&&◌, ◌||◌, not, leb, ==_iff,
  take_append, subst,
}
use native.Mathlib.Decide.{ℕ_discrete}
use void_cache.Prelude.Bits.{mask-mod}
use void_cache.Cluster.{crc16_tab, memchr, tag_in, hashed_part, vc_crc16, vc_key_slot}

-- no byte of the string is `x`
abbrev pub Lacks : ℕ → List ℕ → Type 0
Lacks x [] = Unit
Lacks x (c ∷ cs) = (c ≢ x) × Lacks x cs

memchr-append :
    (x : ℕ) (cs rest : List ℕ) → Lacks x cs → memchr x (cs ++ (x ∷ rest)) ≡ some (length cs)
unfolding memchr
memchr-append x [] rest lacks = rw ((==_iff x x).1 refl) refl
memchr-append x (c ∷ cs) rest (ne, lacks) =
    let other : (c == x) ≡ false = ground (arith, ne) in
    rw (other, memchr-append x cs rest lacks) refl

drop_past : (cs : List ℕ) (x : ℕ) (rest : List ℕ) → drop (length cs + 1) (cs ++ (x ∷ rest)) ≡ rest
drop_past [] x rest = refl
drop_past (c ∷ cs) x rest =
    let e : suc (length cs) + 1 ≡ suc (length cs + 1) = omega arith in rw e (drop_past cs x rest)

-- Every slot is below 16,384.
pub vc_key_slot-lt : (key : List ℕ) → vc_key_slot key < 16384
unfolding vc_key_slot
vc_key_slot-lt key =
    omega (arith, mask-mod (vc_crc16 (hashed_part key (memchr b'{' key))) 16384 (14, refl))

-- The slot of a key with a hash tag is the checksum of the tag alone, modulo 16,384: what stands
-- before the first opening brace and behind the next closing one does not count.
pub vc_key_slot-tag :
    (pre post : List ℕ) (c : ℕ) (tag : List ℕ)
    → Lacks b'{' pre
    → Lacks b'}' (c ∷ tag)
    → vc_key_slot (pre ++ (b'{' ∷ ((c ∷ tag) ++ (b'}' ∷ post)))) ≡ vc_crc16 (c ∷ tag) % 16384
unfolding vc_key_slot hashed_part tag_in
vc_key_slot-tag pre post c tag no_open no_close =
    rw
      (
        memchr-append b'{' pre ((c ∷ tag) ++ (b'}' ∷ post)) no_open,
        drop_past pre b'{' ((c ∷ tag) ++ (b'}' ∷ post)),
        memchr-append b'}' (c ∷ tag) post no_close,
        take_append tag (b'}' ∷ post),
      )
      (mask-mod (vc_crc16 (c ∷ tag)) 16384 (14, refl))

-- one bit of a checksum by the polynomial 0x1021
bit_step : ℕ → ℕ
bit_step crc = if crc / 2 ^ 15 == 1 then bit_xor (crc * 2 % 2 ^ 16) 0x1021 else crc * 2

pub bits : ℕ → ℕ → ℕ
unfolding bit_step
bits zero crc = crc
bits (suc n) crc = bits n (bit_step crc)

-- where the table is wrong
pub is_wrong : ℕ → Bool
is_wrong i = (leb 64 i && leb i 127) || i == 206

agrees_below : ℕ → Bool
agrees_below zero = true
agrees_below (suc n) =
    let rest = agrees_below n in
    (if is_wrong n
      then not (get_or crc16_tab n 0 == bits 8 (n * 2 ^ 8))
      else get_or crc16_tab n 0 == bits 8 (n * 2 ^ 8))
    && rest

whole_table : agrees_below 256 ≡ true
unfolding agrees_below bits is_wrong
whole_table = refl

entry_below :
    (n i : ℕ)
    → agrees_below n ≡ true
    → i < n
    → (if is_wrong i
        then not (get_or crc16_tab i 0 == bits 8 (i * 2 ^ 8))
        else get_or crc16_tab i 0 == bits 8 (i * 2 ^ 8))
      ≡ true
unfolding agrees_below
entry_below zero i h lt = absurd (omega (arith, lt))
entry_below (suc n) i h lt = elim (ℕ_discrete n i) [
  | yes e ↦
      subst
        (λ k.
          (if is_wrong k
            then not (get_or crc16_tab k 0 == bits 8 (k * 2 ^ 8))
            else get_or crc16_tab k 0 == bits 8 (k * 2 ^ 8))
          ≡ true)
        e (and_left _ _ h)
  | no ne ↦ entry_below n i (and_right _ _ h) (omega (arith, lt, ne))
]
  where
    and_left : (a b : Bool) → (a && b) ≡ true → a ≡ true
    and_left a b q = ground arith

    and_right : (a b : Bool) → (a && b) ≡ true → b ≡ true
    and_right a b q = ground arith

-- An entry of the table of `vc_crc16` is what eight steps by the polynomial 0x1021 make of its
-- byte exactly if it is not one of the entries 64 to 127 and 206.
pub crc16_tab-bits :
    (i : ℕ) → i < 256 → (get_or crc16_tab i 0 == bits 8 (i * 2 ^ 8)) ≡ not (is_wrong i)
crc16_tab-bits i h = by_wrong (is_wrong i) _ (entry_below 256 i whole_table h)
  where
    by_wrong : (w same : Bool) → (if w then not same else same) ≡ true → same ≡ not w
    by_wrong true same q = ground arith
    by_wrong false same q = q
