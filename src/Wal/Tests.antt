-- ===== src/Wal/Tests.antt =====
-- The log on small records.
use void_cache.Prelude.{ℕ, ◌≡◌, ◌++◌, get_or, ◌+◌, ◌<◌, ◌≤◌, ◌⊎◌, arith, refl, [], ◌∷◌, some}
use void_cache.Wal.Records.{IsLog, StandsAt, wal_append_inside, wal_append_overflow}
use void_cache.Wal.{
  Wal, hdr_bytes, record_hdr, wal_init, wal_append, wal_set, record_pos, record_size,
}

two_records_positions :
    let w = wal_append (wal_init (some (λ _. 0))) wal_set (1 ∷ []) (2 ∷ []) 0 5 in
    (w.write_pos ≡ 72) × ((wal_append w wal_set (1 ∷ []) (2 ∷ []) 0 5).write_pos ≡ 144)
unfolding wal_append wal_init record_pos record_size
two_records_positions = (refl, refl)

abbrev small_log : Wal
small_log = record { ring = some (λ _. 0); ring_size = 256; write_pos = 0; wal_seq = 0 }

wal_append_inside_example :
    let w' = wal_append small_log wal_set (1 ∷ []) (2 ∷ []) 0 5 in
    let start = record_pos small_log (record_size 1 1) in
    (ring' : ℕ → ℕ) × (w'.ring ≡ some ring')
    × StandsAt ring' start (record_hdr small_log wal_set (1 ∷ []) (2 ∷ []) 0 5) (1 ∷ []) (2 ∷ [])
    × (w'.write_pos ≡ start + record_size 1 1)
    × IsLog w'
    × ((a : ℕ) → (a < start) ⊎ (w'.write_pos ≤ a) → ring' a ≡ 0)
    × (w'.wal_seq ≡ 1)
wal_append_inside_example =
    wal_append_inside small_log (λ _. 0) refl wal_set (1 ∷ []) (2 ∷ []) 0 5
      (record { some_room = omega arith; small = omega arith; inside = omega arith }) (omega arith)

-- a ring of 64 bytes, which holds the header of the record alone
abbrev tiny_log : Wal
tiny_log = record small_log { ring_size = 64 }

wal_append_overflow_example :
    (ring' : ℕ → ℕ) × ((wal_append tiny_log wal_set (1 ∷ []) (2 ∷ []) 0 5).ring ≡ some ring')
    × ((a : ℕ)
        → 64 ≤ a
        → a < 66
        → ring' a
          ≡ get_or
              (hdr_bytes (record_hdr tiny_log wal_set (1 ∷ []) (2 ∷ []) 0 5) ++ (1 ∷ 2 ∷ []))
              a
              0)
wal_append_overflow_example =
    wal_append_overflow tiny_log (λ _. 0) refl wal_set (1 ∷ []) (2 ∷ []) 0 5 (omega arith)
      (omega arith)
