-- ===== src/Slab/Blocks.antt =====
-- Which blocks are free: allocation and release move one block between the free lists of
-- src/voidcache.c and its owner, and touch nothing else.
use void_cache.Prelude.{
  ℕ, zero, suc, ◌+◌, ◌<◌, ◌≡◌, refl, arith, List, [], ◌∷◌, Option, none, some, Bool, true, false,
  get_or, set, length, length-set,
}
use void_cache.Slab.Classes.{slab_class_for-lt}
use void_cache.Slab.{
  Block, SlabClass, Slab, no_class, same_block, class_at, slab_class_for, pop, slab_alloc,
  slab_free,
}

abbrev pub to_nat : Bool → ℕ
to_nat true = 1
to_nat false = 0

pub count : Block → List Block → ℕ
count x [] = 0
count x (b ∷ bs) = to_nat (same_block x b) + count x bs

pub count_free : Block → List SlabClass → ℕ
count_free x [] = 0
count_free x (sc ∷ scs) = count x sc.free + count_free x scs

-- how often `x` stands in the free lists
pub times_free : Slab → Block → ℕ
unfolding count_free
times_free sl x = count_free x sl.classes

count_free-set :
    (x : Block) (scs : List SlabClass) (i : ℕ) (sc : SlabClass)
    → i < length scs
    → count_free x (set scs i sc) + count x (get_or scs i no_class).free
      ≡ count_free x scs + count x sc.free
unfolding count_free
count_free-set x [] i sc h = absurd (omega arith)
count_free-set x (s ∷ scs) zero sc h = omega arith
count_free-set x (s ∷ scs) (suc i) sc h = omega (arith, count_free-set x scs i sc (omega arith))

-- the answer `r` of a pop from the free list `bs`
abbrev pub IsHead : Option Block → List Block → Type 0
IsHead none bs = bs ≡ []
IsHead (some b) bs = (rest : List Block) × (bs ≡ b ∷ rest)

abbrev pub taken : Option Block → Block → ℕ
taken none x = 0
taken (some b) x = to_nat (same_block x b)

-- What a pop from class `cls` does: no block and no change when the class is exhausted; else the
-- head of the class leaves the free lists, and no other block does. No stored byte changes.
pub record Allocated (sl : Slab) (cls : ℕ) (b : Option Block) (sl' : Slab) : Type 0 where
  pub cells : sl'.cells ≡ sl.cells
  pub width : length sl'.classes ≡ length sl.classes
  pub head : IsHead b (class_at sl cls).free
  pub moves : (x : Block) → times_free sl x ≡ times_free sl' x + taken b x

pop-Allocated :
    (sl : Slab) (cls : ℕ) (bs : List Block)
    → cls < length sl.classes
    → (class_at sl cls).free ≡ bs
    → Allocated sl cls (pop sl cls bs).0 (pop sl cls bs).1
unfolding pop times_free
pop-Allocated sl cls [] h e = record {
  cells = refl;
  width = refl;
  head = e;
  moves = λ x. omega arith;
}
pop-Allocated sl cls (b ∷ bs) h e = record {
  cells = refl;
  width = length-set sl.classes cls _;
  head = (bs, e);
  moves = λ x.
      let sc = class_at sl cls in
      let law =
        count_free-set x sl.classes cls (record sc { free = bs; alloc_count = sc.alloc_count + 1 })
          h in
      let old : count x sc.free ≡ to_nat (same_block x b) + count x bs =
        rw e (unfold count in refl) in
      omega (arith, law, old);
}

-- An allocation of any size in a slab of sixteen classes pops the class of that size: it fails
-- only when that class has no free block, and else the block returned leaves the free lists once,
-- every other block stays free as often as it was, and no stored byte changes.
pub slab_alloc-Allocated :
    (sl : Slab) (sz : ℕ)
    → length sl.classes ≡ 16
    → let r = slab_alloc sl sz in (r.0 ≡ slab_class_for sz) × Allocated sl r.0 r.1 r.2
unfolding slab_alloc
slab_alloc-Allocated sl sz h =
    (refl, pop-Allocated sl _ _ (omega (arith, slab_class_for-lt sz)) refl)

-- A release to class `cls` puts the block on the free lists once more, and changes how often no
-- other block stands there; no stored byte changes.
pub slab_free_moves :
    (sl : Slab) (b : Block) (cls : ℕ)
    → cls < length sl.classes
    → ((x : Block) → times_free (slab_free sl b cls) x ≡ times_free sl x + to_nat (same_block x b))
      × ((slab_free sl b cls).cells ≡ sl.cells)
      × (length (slab_free sl b cls).classes ≡ length sl.classes)
unfolding slab_free times_free count
slab_free_moves sl b cls h = (
  λ x.
      let sc = class_at sl cls in
      omega (
        arith,
        count_free-set x sl.classes cls
            (record sc { free = b ∷ sc.free; free_count = sc.free_count + 1 }) h,
      ),
  refl,
  length-set sl.classes cls _,
)
