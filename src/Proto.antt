-- ===== src/Proto.antt =====
-- The RESP protocol of net/proto.c and net/proto.h: the input and output buffer; the parser and
-- the writers are in the modules below.
pub mod Decimal
pub mod Parse
pub mod Write
mod Tests
use void_cache.Prelude.{
  ℕ, zero, suc, ◌+◌, ◌-◌, ◌*◌, List, [], ◌++◌, Option, none, some, Bool, true, false, length, drop,
  leb, ltb, if◌then◌else◌,
}
use void_cache.Hash.{word64}

-- `vc_buf_t`; the `len` bytes in use are `bytes`.
pub record Buf : Type 0 where
  pub bytes : List ℕ
  pub cap : ℕ
  pub rpos : ℕ

-- `vc_buf_new`, where the allocations succeed
unfoldable pub vc_buf_new : ℕ → Buf
vc_buf_new cap = record { bytes = []; cap = cap; rpos = 0 }

-- `while (nc - b->len < need) nc *= 2`; `none` when the rounds run out
unfoldable pub grow_from : ℕ → ℕ → ℕ → ℕ → Option ℕ
grow_from len need nc zero = none
grow_from len need nc (suc n) =
    let rest = grow_from len need (word64 (nc * 2)) n in
    if ltb (nc - len) need then rest else some nc

-- `realloc`, where `mem` says which sizes can be had, on the new capacity
unfoldable pub grown : (ℕ → Bool) → Buf → Option ℕ → Option Buf
grown mem b none = none
grown mem b (some nc) = if mem nc then some (record b { cap = nc }) else none

-- `vc_buf_grow`; `none` is -1.
unfoldable pub vc_buf_grow : (ℕ → Bool) → Buf → ℕ → Option Buf
unfolding grow_from grown
vc_buf_grow mem b need =
    if leb need (b.cap - length b.bytes)
    then some b
    else grown mem b (grow_from (length b.bytes) need (word64 (b.cap * 2)) (need + 1))

unfoldable pub vc_buf_reset : Buf → Buf
vc_buf_reset b = record b { bytes = []; rpos = 0 }

unfoldable pub vc_buf_consume : Buf → ℕ → Buf
vc_buf_consume b n =
    if leb (length b.bytes) n
    then vc_buf_reset b
    else record b { bytes = drop n b.bytes; rpos = if leb n b.rpos then b.rpos - n else 0 }
