-- ===== src/Slab/Tests.antt =====
-- The slab on concrete sizes, and a slab of one-page arenas.
use void_cache.Prelude.{◌≡◌, refl, length}
use void_cache.Slab.{Slab, Block, slab_init, slab_class_for, slab_alloc}
use void_cache.Slab.Blocks.{Allocated, slab_alloc-Allocated}

class_for_sizes :
    (slab_class_for 64 ≡ 0)
    × (slab_class_for 65 ≡ 1)
    × (slab_class_for 65535 ≡ 10)
    × (slab_class_for 65537 ≡ 11)
    × (slab_class_for 3000000 ≡ 15)
unfolding slab_class_for
class_for_sizes = (refl, refl, refl, refl, refl)

abbrev page_slab : Slab
page_slab = slab_init 4096

sixteen : length page_slab.classes ≡ 16
unfolding slab_init
sixteen = refl

slab_alloc-Allocated_example :
    let r = slab_alloc page_slab 100 in (r.0 ≡ slab_class_for 100) × Allocated page_slab r.0 r.1 r.2
slab_alloc-Allocated_example = slab_alloc-Allocated page_slab 100 sixteen

abbrev block_3 : Block
block_3 = record { arena = 1; index = 3 }
