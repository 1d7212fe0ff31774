-- ===== src/Commands/Pages/Scan/Cursor.antt =====
-- The cursor of SCAN of net/commands.c, as it is sent and as it is read again.
use void_cache.Prelude.{
  ℕ, zero, suc, ◌+◌, ◌≤◌, ◌<◌, ◌≡◌, ◌∙◌, sym, subst, ap, ◌/◌, ◌%◌, ◌^◌, arith, List, [], ◌∷◌,
  length, take, drop, drop_zero, drop-drop, ◌<◌, length-drop, ◌⊎◌, inl, inr,
}
use void_cache.Prelude.Joins.{bit_or_shift}
use void_cache.Shard.{Shard}
use void_cache.Commands.Keys.{scan_page}
use void_cache.Commands.Pages.{all_keys, keys_from}
use void_cache.Commands.Pages.Scan.{AllWhole, Continues, scan_shards-Continues}

-- the keys of live entries from the place of a cursor on: the shard in its bits from the 20th on, and
-- the slot in those below
abbrev pub rest_from : List Shard → ℕ → List (List ℕ)
rest_from shards cursor = keys_from (drop (cursor / 2 ^ 20 % 64) shards) (cursor % 2 ^ 20)

AllWhole-drop : (k : ℕ) (ss : List Shard) → AllWhole ss → AllWhole (drop k ss)
unfolding AllWhole
AllWhole-drop zero ss all = subst AllWhole (sym (drop_zero ss)) all
AllWhole-drop (suc k) [] all = tt
AllWhole-drop (suc k) (s ∷ ss) (whole, small, all) = AllWhole-drop k ss all

-- a next cursor of a page that leaves out the keys `ks`: 0, where these are the keys of the tables
-- behind some table, or the place from which on there are just these
abbrev pub Leaves : List Shard → List (List ℕ) → ℕ → Type 0
Leaves shards ks cursor =
    ((cursor ≡ 0) × (k : ℕ) × (ks ≡ all_keys (drop k shards)))
    ⊎ ((0 < cursor) × (rest_from shards cursor ≡ ks))

Continues-Leaves :
    (shards : List Shard) (shard slot n c : ℕ)
    → length shards ≤ 64
    → Continues (drop shard shards) shard slot n c
    → Leaves shards (drop n (keys_from (drop shard shards) slot)) c
Continues-Leaves shards shard slot n c few (inl (e, k, q)) =
    inl (e, shard + k, q ∙ ap all_keys (drop-drop k shard shards))
Continues-Leaves shards shard slot n c few (inr (k, stop, less, positive, fits, e, q)) =
    let at = e ∙ bit_or_shift 20 (shard + k) stop fits in
    let high : c / 2 ^ 20 % 64 ≡ shard + k =
      omega (arith, at, fits, few, less, length-drop shard shards) in
    let low : c % 2 ^ 20 ≡ stop = omega (arith, at, fits) in
    inr (
      omega (arith, at, positive),
      ap (λ i. keys_from (drop i shards) (c % 2 ^ 20)) high
          ∙ ap (keys_from (drop (shard + k) shards)) low
          ∙ ap (λ ss. keys_from ss stop) (sym (drop-drop k shard shards))
          ∙ q,
    )

-- A page of at most `n` keys, for `n` not 0, holds the next `n` keys of live entries from the cursor
-- on, or all if there are fewer. Its next cursor is not 0, and says the place from which on there are
-- just the keys left out; or it is 0, and the page ended where a table ends, so that the keys left out
-- are those of the tables behind, if any. There are at most 64 shards, of at most 2 ^ 20 slots each.
pub scan_page_lem :
    (shards : List Shard) (cursor n : ℕ)
    → length shards ≤ 64
    → AllWhole shards
    → 0 < n
    → ((scan_page shards cursor n).0 ≡ take n (rest_from shards cursor))
      × Leaves shards (drop n (rest_from shards cursor)) (scan_page shards cursor n).1
unfolding scan_page
scan_page_lem shards cursor n few all some_room =
    let shard = cursor / 2 ^ 20 % 64 in
    let (keys, at) =
      scan_shards-Continues (drop shard shards) shard (cursor % 2 ^ 20) n
        (λ e. absurd (omega (arith, e, some_room))) (AllWhole-drop shard shards all) in
    (keys, Continues-Leaves shards shard (cursor % 2 ^ 20) n (scan_page shards cursor n).1 few at)
