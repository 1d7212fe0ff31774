-- ===== src/Cache/Stored.antt =====
-- Where `vc_set` of src/voidcache.c stores the key and the value, and that the rest of the call
-- keeps them there.
use void_cache.Prelude.{
  take_append, drop_append, take-length, ℕ, ◌+◌, ◌≡◌, ◌∙◌, refl, ap, Bool, true, false, List,
  Option, none, some, leb, ==_iff, length, take, if◌then◌else◌, ◌-◌,
}
use void_cache.Slab.{
  Slab, Block, slab_alloc, slab_free, same_block, store, slab_classes, slab_class_size,
}
use void_cache.Entry.{
  Entry, Payload, packed, slab_short, slab_long, mmap_long, key_bytes, val_bytes, release,
  entry_free_resources,
}
use void_cache.Shard.{Shard, slot_at, shard_bury, shard_evict_one, evict_end}
use void_cache.Cache.Locked.{crowded}
use void_cache.Cache.{
  Env, Build, built, out_of_memory, slab_path, build, drop_old, make_room, shard_set,
}

-- A result of `build` that has succeeded stores the key and the value.
abbrev pub Stores : List ℕ → List ℕ → Build → Type 0
Stores key val (out_of_memory sl) = Unit
Stores key val (built payload sl memory) =
    (take (length key) (key_bytes payload) ≡ key)
    × ((sl' : Slab) → sl'.cells ≡ sl.cells → val_bytes sl' (length key) payload ≡ val)

store_self : (sl : Slab) (b : Block) (val : List ℕ) → (store sl b val).cells b ≡ val
unfolding store same_block
store_self sl b val = rw ((==_iff b.arena b.arena).1 refl, (==_iff b.index b.index).1 refl) refl

if_holds {ℓ} :
    {A : Type ℓ} (P : A → Type 0) (b : Bool) (x y : A) → P x → P y → P (if b then x else y)
if_holds P true x y p q = p
if_holds P false x y p q = q

slab_path-Stores :
    (env : Env) (key val : List ℕ) (memory : ℕ) (r : ℕ × Option Block × Slab)
    → Stores key val (slab_path env key val memory r)
unfolding slab_path key_bytes val_bytes
slab_path-Stores env key val memory (cls, none, sl) = tt
slab_path-Stores env key val memory (cls, some b, sl) =
    let same : (sl' : Slab) → sl'.cells ≡ (store sl b val).cells → sl'.cells b ≡ val =
      λ sl' e. ap (λ f. f b) e ∙ store_self sl b val in
    if_holds (Stores key val) (leb (length key) (32 - 8)) _ _ (take-length key, same)
      (if_holds (Stores key val) env.malloc_ok _ _ (take-length key, same) tt)

-- Each of the four ways in which an entry is built stores the key and the value.
pub build-Stores :
    (env : Env) (sl : Slab) (memory : ℕ) (key val : List ℕ)
    → Stores key val (build env sl memory key val)
unfolding build key_bytes val_bytes
build-Stores env sl memory key val =
    if_holds (Stores key val) (leb (length key + length val) 32) _ _
      (take_append key val, λ sl' e. drop_append key val)
      (if_holds (Stores key val) (leb (length val) (slab_class_size (slab_classes - 1))) _ _
        (slab_path-Stores env key val memory (slab_alloc sl (length val)))
        (if_holds (Stores key val) env.mmap_ok _ _
          (if_holds (Stores key val) env.malloc_ok _ _ (take-length key, λ sl' e. refl) tt) tt))

entry_free_resources-cells : (sl : Slab) (e : Entry) → (entry_free_resources sl e).cells ≡ sl.cells
unfolding entry_free_resources release slab_free
entry_free_resources-cells sl e = by_payload e.payload
  where
    by_payload : (p : Payload) → (release sl e.val_len p).cells ≡ sl.cells
    by_payload (packed bs) = refl
    by_payload (slab_short k b) = refl
    by_payload (slab_long k b) = refl
    by_payload (mmap_long k v) = refl

drop_old-cells : (s : Shard) (sl : Slab) (o : Option ℕ) → (drop_old s sl o).1.cells ≡ sl.cells
unfolding drop_old shard_bury
drop_old-cells s sl none = refl
drop_old-cells s sl (some i) = entry_free_resources-cells sl (slot_at s.table i)

evict-cells : (s : Shard) (sl : Slab) → (shard_evict_one s sl).2.cells ≡ sl.cells
unfolding shard_evict_one evict_end
evict-cells s sl = by_slot _ _
  where
    by_slot : (o : Option ℕ) (t : List Entry) → (evict_end s sl o t).2.cells ≡ sl.cells
    by_slot none t = refl
    by_slot (some i) t = entry_free_resources-cells sl (slot_at t i)

make_room-cells : (s : Shard) (sl : Slab) → (make_room s sl).1.cells ≡ sl.cells
unfolding make_room
make_room-cells s sl =
    if_holds (λ (r : Shard × Slab). r.1.cells ≡ sl.cells) (crowded s) _ _ (evict-cells s sl) refl

-- The part under the lock overwrites no stored byte.
pub shard_set-cells :
    (now : ℕ) (s : Shard) (sl : Slab) (key : List ℕ) (h : ℕ) (ne : Entry)
    → (shard_set now s sl key h ne).1.cells ≡ sl.cells
unfolding shard_set
shard_set-cells now s sl key h ne = make_room-cells _ _ ∙ drop_old-cells _ _ _
