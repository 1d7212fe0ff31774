-- ===== src/Client.antt =====
-- The command-line client cli/vcli.c: from a line that is typed to the bytes that are sent. A line
-- is a C string without its NUL byte.
pub mod Words
mod Tests
use void_cache.Prelude.{
  ℕ, zero, suc, ◌*◌, List, [], ◌∷◌, ◌++◌, Option, none, some, Bool, true, false, length, leb, ◌==◌,
  ◌||◌, if◌then◌else◌,
}
use void_cache.Proto.Decimal.{decimal}

unfoldable pub is_gap : ℕ → Bool
is_gap c = c == b' ' || c == 9

unfoldable pub skip_gap : List ℕ → List ℕ
unfolding is_gap
skip_gap [] = []
skip_gap (c ∷ cs) = let rest = skip_gap cs in if is_gap c then rest else c ∷ cs

-- the bytes up to the first one that stops, which becomes a NUL, and what stands behind it
unfoldable pub split_at : (ℕ → Bool) → List ℕ → List ℕ × List ℕ
split_at stops [] = ([], [])
split_at stops (c ∷ cs) =
    let (token, rest) = split_at stops cs in if stops c then ([], cs) else (c ∷ token, rest)

-- one token, in double quotes, in single quotes or without
unfoldable pub token_from : ℕ → List ℕ → List ℕ × List ℕ
unfolding split_at is_gap
token_from c cs =
    if c == b'"'
    then split_at (λ d. d == b'"') cs
    else if c == b'\''
    then split_at (λ d. d == b'\'') cs
    else split_at is_gap (c ∷ cs)

-- one round of `tokenize` behind the blanks; `next` runs the loop on
unfoldable pub token_then : (List ℕ → List (List ℕ)) → List ℕ → List (List ℕ)
unfolding token_from
token_then next [] = []
token_then next (c ∷ cs) = let (token, rest) = token_from c cs in token ∷ next rest

-- `tokenize`, with room for `n` tokens
unfoldable pub tokenize : ℕ → List ℕ → List (List ℕ)
unfolding token_then skip_gap
tokenize zero line = []
tokenize (suc n) line = token_then (tokenize n) (skip_gap line)

-- the size of `cmdbuf` in `do_command`
abbrev pub cmd_size : ℕ
cmd_size = 256 * 1024

-- `$<length>\r\n<bytes>\r\n`
abbrev pub encoded_arg : List ℕ → List ℕ
encoded_arg arg = b'$' ∷ decimal (length arg) ++ (13 ∷ 10 ∷ arg ++ (13 ∷ 10 ∷ []))

-- The loop of `encode_command`. What `snprintf` cuts off belongs to a command that is refused.
unfoldable pub encode_args : ℕ → List (List ℕ) → List ℕ → Option (List ℕ)
encode_args size [] buf = some buf
encode_args size (arg ∷ args) buf =
    let written = buf ++ encoded_arg arg in
    let rest = encode_args size args written in if leb size (length written) then none else rest

-- `encode_command`: the bytes in the buffer, or `none` for -1
unfoldable pub encode_command : ℕ → List (List ℕ) → Option (List ℕ)
unfolding encode_args
encode_command size args = encode_args size args (b'*' ∷ decimal (length args) ++ (13 ∷ 10 ∷ []))
