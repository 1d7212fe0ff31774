-- ===== src/Commands/Pages/Scan/Early.antt =====
-- A page of SCAN of net/commands.c that ends where a table ends.
use void_cache.Prelude.{
  ℕ, zero, suc, ◌+◌, ◌-◌, ◌≤◌, ◌<◌, ◌≡◌, ◌∙◌, refl, ap, arith, List, [], ◌∷◌, ◌++◌, Bool, true,
  false, length, take, drop, leb, append-nil, ◌<◌, take-length_le, length-append, length-drop, inl,
  inr, Bool-cases,
}
use void_cache.Entry.{Entry}
use void_cache.Shard.{Shard}
use void_cache.Commands.Keys.{is_live, scan_slots, scan_next, scan_shards}
use void_cache.Commands.Pages.{live_if, live_keys}
use void_cache.Commands.Pages.Scan.{scan_slots-IsPage}

-- a slot that is not live is passed over
scan_slots-skip :
    (slot m : ℕ) (x : Entry) (rest : List Entry)
    → is_live x.state ≡ false
    → 0 < m
    → (scan_slots slot m (x ∷ rest)).1 ≡ (scan_slots (slot + 1) m rest).1
unfolding scan_slots
scan_slots-skip slot zero x rest gone some_room = absurd (omega arith)
scan_slots-skip slot (suc m) x rest gone some_room = rw gone refl

-- and one that is live is taken
scan_slots-one :
    (slot m : ℕ) (x : Entry) (rest : List Entry)
    → is_live x.state ≡ true
    → (scan_slots slot (suc m) (x ∷ rest)).1 ≡ (scan_slots (slot + 1) m rest).1
unfolding scan_slots
scan_slots-one slot m x rest alive = rw alive refl

some_key :
    (es : List Entry) (e : Entry) → is_live e.state ≡ true → 0 < length (live_keys (es ++ e ∷ []))
unfolding live_keys live_if
some_key [] e last = rw last (omega arith)
some_key (x ∷ xs) e last = elim (Bool-cases (is_live x.state)) [
  | inl alive ↦ rw alive (omega arith)
  | inr gone ↦ rw gone (some_key xs e last)
]

-- a table whose last entry is live, from a slot on, in a page of just its keys
scan_slots-to_end :
    (slot : ℕ) (es : List Entry) (e : Entry)
    → is_live e.state ≡ true
    → (scan_slots slot (length (live_keys (es ++ e ∷ []))) (es ++ e ∷ [])).1
      ≡ slot + length (es ++ e ∷ [])
unfolding scan_slots live_keys live_if
scan_slots-to_end slot [] e last = rw last (omega arith)
scan_slots-to_end slot (x ∷ xs) e last =
    by_state (is_live x.state) refl (scan_slots-to_end (slot + 1) xs e last)
  where
    by_state :
        (b : Bool)
        → is_live x.state ≡ b
        → (scan_slots (slot + 1) (length (live_keys (xs ++ e ∷ []))) (xs ++ e ∷ [])).1
          ≡ slot + 1 + length (xs ++ e ∷ [])
        → (scan_slots slot (length (live_if b x (live_keys (xs ++ e ∷ [])))) (x ∷ xs ++ e ∷ [])).1
          ≡ slot + length (x ∷ xs ++ e ∷ [])
    by_state true alive rest = scan_slots-one slot _ x (xs ++ e ∷ []) alive ∙ rest ∙ omega arith
    by_state false gone rest =
        scan_slots-skip slot _ x (xs ++ e ∷ []) gone (some_key xs e last) ∙ rest ∙ omega arith

scan_shards-none :
    (ss : List Shard) (shard slot m : ℕ) → m ≡ 0 → scan_shards ss shard slot m ≡ ([], 0)
unfolding scan_shards
scan_shards-none [] shard slot m none' = refl
scan_shards-none (s ∷ ss) shard slot zero none' = refl
scan_shards-none (s ∷ ss) shard slot (suc m) none' = absurd (omega arith)

scan_shards-some :
    (s : Shard) (ss : List Shard) (shard slot m : ℕ)
    → 0 < m
    → scan_shards (s ∷ ss) shard slot m
      ≡ scan_next shard s.cap
          (scan_slots slot m (drop slot s.table))
          (λ k. scan_shards ss (shard + 1) 0 (m - k))
unfolding scan_shards
scan_shards-some s ss shard slot zero some_room = absurd (omega arith)
scan_shards-some s ss shard slot (suc m) some_room = refl

scan_next-past :
    (shard size : ℕ) (r : List (List ℕ) × ℕ) (next : ℕ → List (List ℕ) × ℕ)
    → size ≤ r.1
    → next (length r.0) ≡ ([], 0)
    → scan_next shard size r next ≡ (r.0, 0)
unfolding scan_next
scan_next-past shard size r next past over =
    let all : leb size r.1 ≡ true = ground arith in
    rw (all, over) (ap (λ ks. (ks, 0)) (append-nil r.0))

-- Where the last slot of a table is live and a page of SCAN holds just the keys of that table from
-- the cursor on, the next cursor is 0, which ends the iteration, whatever the other tables hold.
pub scan_shards_ends_early :
    (s : Shard) (ss : List Shard) (shard slot : ℕ) (es : List Entry) (e : Entry)
    → length s.table ≡ s.cap
    → drop slot s.table ≡ es ++ e ∷ []
    → is_live e.state ≡ true
    → scan_shards (s ∷ ss) shard slot (length (live_keys (es ++ e ∷ [])))
      ≡ (live_keys (es ++ e ∷ []), 0)
scan_shards_ends_early s ss shard slot es e whole same last =
    let ks = live_keys (es ++ e ∷ []) in
    let n = length ks in
    let r = scan_slots slot n (drop slot s.table) in
    let page : r.0 ≡ ks =
      (scan_slots-IsPage slot n (drop slot s.table)).0
      ∙ ap (λ t. take n (live_keys t)) same
      ∙ take-length_le ks n (omega arith) in
    let stop : r.1 ≡ slot + length (es ++ e ∷ []) =
      ap (λ t. (scan_slots slot n t).1) same ∙ scan_slots-to_end slot es e last in
    let size = length-drop slot s.table in
    let past : s.cap ≤ r.1 =
      omega (arith, stop, whole, size, ap length same, length-append es (e ∷ [])) in
    scan_shards-some s ss shard slot n (some_key es e last)
    ∙ scan_next-past shard s.cap r (λ k. scan_shards ss (shard + 1) 0 (n - k)) past
        (scan_shards-none ss (shard + 1) 0 (n - length r.0) (omega (arith, ap length page)))
    ∙ ap (λ xs. (xs, 0)) page
