-- ===== src/Slab.antt =====
-- The slab allocator of src/voidcache.c (`slab_class_size` to `slab_free`): size classes of
-- 64 << cls bytes, each with a free list that is pushed and popped at its head.
-- A call runs alone here, so its compare-and-swap loop succeeds in the first round.
pub mod Classes
pub mod Blocks
mod Tests
use void_cache.Prelude.{
  ℕ, zero, suc, ◌+◌, ◌-◌, ◌*◌, ◌/◌, ◌^◌, List, [], ◌∷◌, Option, none, some, get_or, set, ltb, leb,
  if◌then◌else◌, Bool, ◌==◌, ◌&&◌,
}

-- VC_SLAB_CLASSES, VC_SLAB_BASE
abbrev pub slab_classes : ℕ
slab_classes = 16

abbrev pub slab_base : ℕ
slab_base = 64

-- The address of a block: the arena of a class, and the index in it.
pub record Block : Type 0 where
  pub arena : ℕ
  pub index : ℕ

-- `vc_slab_class_t`; the list that the embedded `next` pointers thread is `free`, head first.
pub record SlabClass : Type 0 where
  pub free : List Block
  pub block_size : ℕ
  pub arena_size : ℕ
  pub alloc_count : ℕ
  pub free_count : ℕ

-- `vc_slab_t`, with the bytes that a client stored in each block.
pub record Slab : Type 0 where
  pub classes : List SlabClass
  pub cells : Block → List ℕ

abbrev pub no_class : SlabClass
no_class = record { free = []; block_size = 0; arena_size = 0; alloc_count = 0; free_count = 0 }

pub slab_class_size : ℕ → ℕ
slab_class_size cls = slab_base * 2 ^ cls

-- `while (s < sz && cls < VC_SLAB_CLASSES - 1)`; `left` is VC_SLAB_CLASSES - 1 - cls.
class_from : ℕ → ℕ → ℕ → ℕ → ℕ
class_from zero s cls sz = cls
class_from (suc left) s cls sz =
    let rest = class_from left (s * 2) (cls + 1) sz in if ltb s sz then rest else cls

pub slab_class_for : ℕ → ℕ
unfolding class_from
slab_class_for sz = if leb sz slab_base then 0 else class_from (slab_classes - 1) slab_base 0 sz

-- The free list of `n` blocks, which the loop `for (size_t i = n; i-- > 0; )` builds back to front.
thread_blocks : ℕ → ℕ → List Block → List Block
thread_blocks c zero prev = prev
thread_blocks c (suc i) prev = thread_blocks c i (record { arena = c; index = i } ∷ prev)

-- One round of the loop of `slab_init`, for an arena of `arena_bytes`.
pub class_init : ℕ → ℕ → SlabClass
unfolding thread_blocks slab_class_size
class_init arena_bytes c =
    let block_size = slab_class_size c in
    let arena_size = arena_bytes / block_size * block_size in
    record {
      free = thread_blocks c (arena_size / block_size) [];
      block_size = block_size;
      arena_size = arena_size;
      alloc_count = 0;
      free_count = 0;
    }

classes_from : ℕ → ℕ → ℕ → List SlabClass
classes_from arena_bytes zero c = []
classes_from arena_bytes (suc n) c = class_init arena_bytes c ∷ classes_from arena_bytes n (c + 1)

-- `slab_init`, where every `mmap` succeeds.
pub slab_init : ℕ → Slab
unfolding classes_from class_init
slab_init arena_bytes = record {
  classes = classes_from arena_bytes slab_classes 0;
  cells = λ b. [];
}

-- SLAB_ARENA_MB
abbrev pub arena_bytes : ℕ
arena_bytes = 16 * 1024 * 1024

abbrev pub class_at : Slab → ℕ → SlabClass
class_at sl cls = get_or sl.classes cls no_class

-- Pops the head of a class; `none` when the class is exhausted.
unfoldable pub pop : Slab → ℕ → List Block → Option Block × Slab
pop sl cls [] = (none, sl)
pop sl cls (head ∷ next) =
    let sc = class_at sl cls in
    (
      some head,
      record sl {
        classes = set sl.classes cls (record sc { free = next; alloc_count = sc.alloc_count + 1 });
      },
    )

-- The block, and the class, which the C code returns through `out_cls`.
unfoldable pub slab_alloc : Slab → ℕ → ℕ × Option Block × Slab
unfolding pop slab_class_for
slab_alloc sl sz =
    let cls = slab_class_for sz in let (b, sl') = pop sl cls (class_at sl cls).free in (cls, b, sl')

unfoldable pub slab_free : Slab → Block → ℕ → Slab
slab_free sl b cls =
    let sc = class_at sl cls in
    record sl {
      classes =
          set sl.classes cls (record sc { free = b ∷ sc.free; free_count = sc.free_count + 1 });
    }

unfoldable pub same_block : Block → Block → Bool
same_block a b = a.arena == b.arena && a.index == b.index

-- `memcpy` into a block.
unfoldable pub store : Slab → Block → List ℕ → Slab
store sl b bytes = record sl { cells = λ x. if same_block x b then bytes else sl.cells x }
