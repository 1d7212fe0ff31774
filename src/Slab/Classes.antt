-- ===== src/Slab/Classes.antt =====
-- The choice of a size class by `slab_class_for` of src/voidcache.c.
use void_cache.Prelude.{
  ℕ, zero, suc, ◌+◌, ◌-◌, ◌*◌, ◌≤◌, ◌<◌, ◌≡◌, ◌⊎◌, refl, arith, ltb, leb, Bool-cases, inl, inr,
}
use native.Mathlib.Nat.{pow-suc}
use native.Mathlib.Numerals.{add-one}
use void_cache.Slab.{slab_base, slab_class_size, class_from, slab_class_for}

pub slab_class_size-suc : (c : ℕ) → slab_class_size (c + 1) ≡ slab_class_size c * 2
unfolding slab_class_size
slab_class_size-suc c = rw (add-one, pow-suc) (omega arith)

-- `c` holds `sz` bytes and no smaller class from `cls` on does
record IsClassFrom (cls left sz c : ℕ) : Type 0 where
  fits : sz ≤ slab_class_size c
  from : cls ≤ c
  upto : c ≤ cls + left
  least : (c ≡ cls) ⊎ (slab_class_size (c - 1) < sz)

-- one more round of the loop
IsClassFrom-round :
    (cls left s sz c : ℕ)
    → s ≡ slab_class_size cls
    → s < sz
    → IsClassFrom (cls + 1) left sz c
    → IsClassFrom cls (suc left) sz c
IsClassFrom-round cls left s sz c e small r = record {
  fits = r.fits;
  from = omega (arith, r.from);
  upto = omega (arith, r.upto);
  least = inr (below r.least);
}
  where
    below : (c ≡ cls + 1) ⊎ (slab_class_size (c - 1) < sz) → slab_class_size (c - 1) < sz
    below (inl p) = let q : c - 1 ≡ cls = omega arith in rw q (omega arith)
    below (inr q) = q

class_from-IsClassFrom :
    (left cls s sz : ℕ)
    → s ≡ slab_class_size cls
    → sz ≤ slab_class_size (cls + left)
    → IsClassFrom cls left sz (class_from left s cls sz)
unfolding class_from
class_from-IsClassFrom zero cls s sz e h =
    let e' : cls + 0 ≡ cls = omega arith in
    record { fits = rw e' at h; from = omega arith; upto = omega arith; least = inl refl }
class_from-IsClassFrom (suc left) cls s sz e h = elim (Bool-cases (ltb s sz)) [
  | inr done ↦ rw done (record {
    fits = ground (arith, done);
    from = omega arith;
    upto = omega arith;
    least = inl refl;
  })
  | inl more ↦ rw more (
      IsClassFrom-round cls left s sz _ e (ground (arith, more)) (
        class_from-IsClassFrom left (cls + 1) (s * 2) sz (omega (arith, slab_class_size-suc cls))
          (let p : cls + suc left ≡ cls + 1 + left = omega arith in rw p at h)))
]

-- Every size up to that of the largest class gets a class that holds it, one of the sixteen, and
-- the class below, if there is one, would be too small.
pub slab_class_for_least :
    (sz : ℕ)
    → sz ≤ slab_class_size 15
    → (sz ≤ slab_class_size (slab_class_for sz))
      × (slab_class_for sz < 16)
      × ((slab_class_for sz ≡ 0) ⊎ (slab_class_size (slab_class_for sz - 1) < sz))
unfolding slab_class_for
slab_class_for_least sz h = elim (Bool-cases (leb sz slab_base)) [
  | inl small ↦ rw small (size_zero (ground (arith, small)), omega arith, inl refl)
  | inr big ↦ rw big (
      let r = class_from-IsClassFrom 15 0 slab_base sz (unfold slab_class_size in refl) h in
      (r.fits, omega (arith, r.upto), r.least))
]
  where
    size_zero : sz ≤ slab_base → sz ≤ slab_class_size 0
    size_zero p = unfold slab_class_size in p

class_from-le : (left s cls sz : ℕ) → class_from left s cls sz ≤ cls + left
unfolding class_from
class_from-le zero s cls sz = omega arith
class_from-le (suc left) s cls sz = ground (arith, class_from-le left (s * 2) (cls + 1) sz)

pub slab_class_for-lt : (sz : ℕ) → slab_class_for sz < 16
unfolding slab_class_for
slab_class_for-lt sz = ground (arith, class_from-le 15 64 0 sz)
