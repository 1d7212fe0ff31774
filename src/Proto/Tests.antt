-- ===== src/Proto/Tests.antt =====
-- The protocol on small commands.
use void_cache.Prelude.{ℕ, ◌≡◌, arith, refl, List, [], ◌∷◌, Bool, true, length}
use void_cache.Proto.{Buf, vc_buf_new}
use void_cache.Proto.Parse.{resp_parse_command}
use void_cache.Proto.Parse.Bounds.{Answers, resp_parse_command-Answers}
use void_cache.Proto.Write.Room.{IsBuf}

-- every request for memory succeeds
abbrev mem : ℕ → Bool
mem n = true

abbrev small_buf : Buf
small_buf = vc_buf_new 4

small_buf-IsBuf : IsBuf small_buf
unfolding vc_buf_new
small_buf-IsBuf = record { some_room = omega arith; inside = omega arith; small = omega arith }

-- get k
abbrev get_k : List (List ℕ)
get_k = (b'g' ∷ b'e' ∷ b't' ∷ []) ∷ (b'k' ∷ []) ∷ []

resp_parse_command-Answers_example :
    Answers
      (b'G' ∷ b'E' ∷ b'T' ∷ b' ' ∷ b'k' ∷ 10 ∷ [])
      (resp_parse_command mem (b'G' ∷ b'E' ∷ b'T' ∷ b' ' ∷ b'k' ∷ 10 ∷ []))
resp_parse_command-Answers_example =
    resp_parse_command-Answers mem (b'G' ∷ b'E' ∷ b'T' ∷ b' ' ∷ b'k' ∷ 10 ∷ [])

empty_bytes : length small_buf.bytes ≡ 0
unfolding vc_buf_new
empty_bytes = refl
