-- ===== src/Commands/Pages/Scan.antt =====
-- What SCAN of net/commands.c lists, page by page.
pub mod Early
pub mod Cursor
use void_cache.Prelude.{
  ℕ, zero, suc, ◌+◌, ◌-◌, ◌≤◌, ◌<◌, ◌≡◌, ◌∙◌, refl, sym, ap, ◌^◌, arith, List, [], ◌∷◌, ◌++◌, Bool,
  true, false, length, take, drop, leb, if◌then◌else◌, append-nil, take-append_rest,
  drop-append_rest, drop_suc, drop_zero, drop_none, drop-past, take-nil, take-none, drop-drop,
  length-drop, length-take, min, leb→le, ◌⊎◌, inl, inr, Bool-cases,
}
use void_cache.Entry.{Entry, entry_key}
use void_cache.Shard.{Shard}
use void_cache.Commands.Keys.{is_live, scan_slots, scan_next, scan_shards, cursor_at}
use void_cache.Commands.Pages.{live_if, live_keys, all_keys, keys_from}

-- A page of at most `m` of the keys `ks` of a table from a slot on: the next keys, and a slot from
-- which the table holds the others; a page that ends inside of the table is full.
abbrev IsPage : ℕ → ℕ → List Entry → List (List ℕ) → List (List ℕ) × ℕ → Type 0
IsPage from m es ks r =
    (r.0 ≡ take m ks)
    × (from ≤ r.1)
    × (r.1 ≤ from + length es)
    × (live_keys (drop (r.1 - from) es) ≡ drop m ks)
    × (r.1 < from + length es → m ≤ length ks)

pub scan_slots-IsPage :
    (slot n : ℕ) (es : List Entry) → IsPage slot n es (live_keys es) (scan_slots slot n es)
unfolding scan_slots live_keys
scan_slots-IsPage slot zero [] =
    (refl, omega arith, omega arith, ap live_keys (drop_none slot []), λ h. omega arith)
scan_slots-IsPage slot (suc n) [] = (
  refl,
  omega arith,
  omega arith,
  ap live_keys (drop_none slot []),
  λ h. absurd (omega (arith, h)),
)
scan_slots-IsPage slot zero (e ∷ es) =
    (refl, omega arith, omega arith, ap live_keys (drop_none slot (e ∷ es)), λ h. omega arith)
scan_slots-IsPage slot (suc n) (e ∷ es) =
    by_state (is_live e.state) (scan_slots-IsPage (slot + 1) n es)
      (scan_slots-IsPage (slot + 1) (suc n) es)
  where
    by_state :
        (b : Bool)
        → IsPage (slot + 1) n es (live_keys es) (scan_slots (slot + 1) n es)
        → IsPage (slot + 1) (suc n) es (live_keys es) (scan_slots (slot + 1) (suc n) es)
        → IsPage slot (suc n) (e ∷ es) (live_if b e (live_keys es)) (
            let (ks, stop) = scan_slots (slot + 1) (if b then n else suc n) es in
            (if b then entry_key e ∷ ks else ks, stop))
    by_state true (p, low, high, rest, full) q = (
      ap (λ ks. entry_key e ∷ ks) p,
      omega arith,
      omega arith,
      ap live_keys (drop_suc _ slot e es low) ∙ rest,
      λ h. omega (arith, full (omega (arith, h))),
    )
    by_state false p (q, low, high, rest, full) = (
      q,
      omega arith,
      omega arith,
      ap live_keys (drop_suc _ slot e es low) ∙ rest,
      λ h. omega (arith, full (omega (arith, h))),
    )

-- every table has as many slots as its shard says, and a cursor has room for their numbers
unfoldable pub AllWhole : List Shard → Type 0
AllWhole [] = Unit {0}
AllWhole (s ∷ ss) = (length s.table ≡ s.cap) × (s.cap ≤ 2 ^ 20) × AllWhole ss

-- the next cursor of a page of `n` keys from a slot on: 0, and the page ended where a table ends; or
-- a place inside of a table from which on there are just the keys that the page has left out
abbrev pub Continues : List Shard → ℕ → ℕ → ℕ → ℕ → Type 0
Continues ss shard slot n cursor =
    ((cursor ≡ 0) × (k : ℕ) × (drop n (keys_from ss slot) ≡ all_keys (drop k ss)))
    ⊎ ((k : ℕ) × (stop : ℕ) × (k < length ss)
        × (0 < stop)
        × (stop < 2 ^ 20)
        × (cursor ≡ cursor_at (shard + k) stop)
        × (keys_from (drop k ss) stop ≡ drop n (keys_from ss slot)))

keys_from-zero : (ss : List Shard) → keys_from ss 0 ≡ all_keys ss
unfolding keys_from all_keys
keys_from-zero [] = refl
keys_from-zero (s ∷ ss) = ap (λ es. live_keys es ++ all_keys ss) (drop_zero s.table)

-- one round of the outer loop
module _ (s : Shard) (ss : List Shard) (shard slot n : ℕ) (r : List (List ℕ) × ℕ)
    (next : ℕ → List (List ℕ) × ℕ) (whole : length s.table ≡ s.cap) (small : s.cap ≤ 2 ^ 20)
    (some_room : 0 < n)
    (page : IsPage slot n (drop slot s.table) (live_keys (drop slot s.table)) r) where
  abbrev first_keys : List (List ℕ)
  first_keys = live_keys (drop slot s.table)

  es-length : length (drop slot s.table) ≡ s.cap - slot
  es-length = length-drop slot s.table ∙ ap (λ c. c - slot) whole

  page-length : length r.0 ≡ min n (length first_keys)
  page-length = ap length page.0 ∙ length-take n first_keys

  -- the table is used up
  used_up : s.cap ≤ r.1 → drop n first_keys ≡ []
  unfolding live_keys
  used_up h =
      sym page.3
      ∙ ap live_keys (drop-past (r.1 - slot) (drop slot s.table) (omega (arith, es-length, h)))

  go_on :
      s.cap ≤ r.1
      → ((next (length r.0)).0 ≡ take (n - length r.0) (all_keys ss))
        × Continues ss (shard + 1) 0 (n - length r.0) (next (length r.0)).1
      → (r.0 ++ (next (length r.0)).0 ≡ take n (first_keys ++ all_keys ss))
        × Continues (s ∷ ss) shard slot n (next (length r.0)).1
  unfolding keys_from
  go_on h (more, at) = (
    ap (λ ks. r.0 ++ ks) more
        ∙ ap (λ ks. ks ++ take (n - length ks) (all_keys ss)) page.0
        ∙ sym (take-append_rest n first_keys (all_keys ss)),
    by_cursor at,
  )
    where
      left : n - length r.0 ≡ n - length first_keys
      left = omega (arith, page-length, ap length (used_up h), length-drop n first_keys)

      skip : drop (n - length r.0) (keys_from ss 0) ≡ drop n (first_keys ++ all_keys ss)
      skip =
          ap (drop (n - length r.0)) (keys_from-zero ss)
          ∙ ap (λ i. drop i (all_keys ss)) left
          ∙ sym (
              drop-append_rest n first_keys (all_keys ss)
              ∙ ap (λ ks. ks ++ drop (n - length first_keys) (all_keys ss)) (used_up h))

      by_cursor :
          Continues ss (shard + 1) 0 (n - length r.0) (next (length r.0)).1
          → Continues (s ∷ ss) shard slot n (next (length r.0)).1
      by_cursor (inl (e, k, q)) = inl (e, suc k, sym skip ∙ q)
      by_cursor (inr (k, stop, less, positive, fits, e, q)) = inr (
        suc k,
        stop,
        omega (arith, less),
        positive,
        fits,
        e ∙ ap (λ i. cursor_at i stop) {x = shard + 1 + k} {y = shard + suc k} (omega arith),
        q ∙ skip,
      )

  stop_here :
      r.1 < s.cap
      → (r.0 ≡ take n (first_keys ++ all_keys ss))
        × Continues (s ∷ ss) shard slot n (cursor_at shard r.1)
  unfolding keys_from
  stop_here h =
      let full = page.4 (omega (arith, es-length, h, page.1)) in
      let none_left : n - length first_keys ≡ 0 = omega (arith, full) in
      (
        page.0
            ∙ sym (
                take-append_rest n first_keys (all_keys ss)
                ∙ ap (λ ks. take n first_keys ++ ks)
                    (take-none (n - length (take n first_keys)) (all_keys ss)
                      (omega (arith, full, length-take n first_keys)))
                ∙ append-nil (take n first_keys)),
        inr (
          0,
          r.1,
          omega arith,
          goes_on full,
          omega (arith, h, small),
          ap (λ i. cursor_at i r.1) {x = shard} {y = shard + 0} (omega arith),
          ap (λ es. live_keys es ++ all_keys ss)
                (ap (λ k. drop k s.table) {x = r.1} {y = slot + (r.1 - slot)}
                    (omega (arith, page.1))
                  ∙ sym (drop-drop (r.1 - slot) slot s.table))
              ∙ ap (λ ks. ks ++ all_keys ss) page.3
              ∙ sym (
                  drop-append_rest n first_keys (all_keys ss)
                  ∙ ap (λ ks. drop n first_keys ++ ks)
                      (ap (λ k. drop k (all_keys ss)) none_left ∙ drop_zero (all_keys ss))),
        ),
      )
    where
      goes_on : n ≤ length first_keys → 0 < r.1
      goes_on full =
          let shorter = ap length page.3 ∙ length-drop n first_keys in
          elim (Bool-cases (leb r.1 slot)) [
            | inl stays ↦
                let same : live_keys (drop (r.1 - slot) (drop slot s.table)) ≡ first_keys =
                  ap live_keys (
                    ap (λ k. drop k (drop slot s.table)) {x = r.1 - slot} {y = 0}
                      (omega (arith, leb→le r.1 slot stays))
                    ∙ drop_zero (drop slot s.table)) in
                absurd (omega (arith, ap length same, shorter, some_room, full))
            | inr moves ↦ ground arith
          ]

  scan_next-Continues :
      ((next (length r.0)).0 ≡ take (n - length r.0) (all_keys ss))
        × Continues ss (shard + 1) 0 (n - length r.0) (next (length r.0)).1
      → ((scan_next shard s.cap r next).0 ≡ take n (first_keys ++ all_keys ss))
        × Continues (s ∷ ss) shard slot n (scan_next shard s.cap r next).1
  unfolding scan_next
  scan_next-Continues rest = elim (Bool-cases (leb s.cap r.1)) [
    | inl end ↦ rw end (go_on (leb→le s.cap r.1 end) rest)
    | inr inside ↦ rw inside (stop_here (ground arith))
  ]

pub scan_shards-Continues :
    (ss : List Shard) (shard slot n : ℕ)
    → (n ≡ 0 → slot ≡ 0)
    → AllWhole ss
    → ((scan_shards ss shard slot n).0 ≡ take n (keys_from ss slot))
      × Continues ss shard slot n (scan_shards ss shard slot n).1
unfolding scan_shards keys_from all_keys AllWhole
scan_shards-Continues [] shard slot n start all =
    (sym (take-nil n [] refl), inl (refl, 0, drop-past n [] (omega arith)))
scan_shards-Continues (s ∷ ss) shard slot zero start all = (
  sym (take-none 0 (keys_from (s ∷ ss) slot) refl),
  inl (
    refl,
    0,
    drop_zero (keys_from (s ∷ ss) slot)
        ∙ ap (keys_from (s ∷ ss)) (start refl)
        ∙ keys_from-zero (s ∷ ss),
  ),
)
scan_shards-Continues (s ∷ ss) shard slot (suc n) start (whole, small, all) =
    let r = scan_slots slot (suc n) (drop slot s.table) in
    let (more, at) = scan_shards-Continues ss (shard + 1) 0 (suc n - length r.0) (λ e. refl) all in
    scan_next-Continues s ss shard slot (suc n) r (λ m. scan_shards ss (shard + 1) 0 (suc n - m))
      whole small (omega arith) (scan_slots-IsPage slot (suc n) (drop slot s.table))
      (more ∙ ap (take (suc n - length r.0)) (keys_from-zero ss), at)
