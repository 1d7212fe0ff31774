-- ===== src/Proto/Parse.antt =====
-- `resp_parse_command` of net/proto.c.
pub mod Whole
pub mod Bounds
use void_cache.Prelude.{
  ℕ, zero, suc, ◌+◌, ◌-◌, ◌*◌, List, [], ◌∷◌, ◌++◌, Option, none, some, Bool, true, false, length,
  take, drop, get_or, set, leb, ltb, ◌==◌, ◌&&◌, ◌||◌, bytes_eq, if◌then◌else◌,
}
use void_cache.Proto.Decimal.{ℤ, pos, negsuc, parse_int64}

-- An argument: the bytes before the NUL of `argv[i]`, or all of them for one of the array form,
-- and `argl[i]`.
pub record Arg : Type 0 where
  pub bytes : List ℕ
  pub argl : ℕ

-- `vc_cmd_t`; `argc` is the length.
pub record Cmd : Type 0 where
  pub args : List Arg
  pub vc_type : ℕ

-- `resp_parse_result_t`, with the command and the bytes consumed
pub data Parsed : Type 0 where
  more err : Parsed
  ok : Cmd → ℕ → Parsed

-- VC_MAX_ARGS, VC_MAX_INLINE_ARG, VC_MAX_CMD_LEN
abbrev pub max_args : ℕ
max_args = 128

abbrev pub max_inline_arg : ℕ
max_inline_arg = 64 * 1024

abbrev pub max_cmd_len : ℕ
max_cmd_len = 64

-- VC_WIRE_MAGIC
abbrev pub wire_magic : List ℕ
wire_magic = b'*' ∷ b'V' ∷ b'C' ∷ b'1' ∷ []

-- `find_crlf`: the offset of the line end
unfoldable pub find_crlf : List ℕ → Option ℕ
find_crlf [] = none
find_crlf (c ∷ cs) =
    let rest = find_crlf cs in
    if c == 13 && (ltb 0 (length cs) && get_or cs 0 0 == 10)
    then some 0
    else elim rest [ none ↦ none | some i ↦ some (suc i) ]

-- the end of a line in the inline form: its offset, and the bytes to skip there
line_end : List ℕ → Option (ℕ × ℕ)
line_end [] = none
line_end (c ∷ cs) =
    let rest = line_end cs in
    if c == 13 && (ltb 0 (length cs) && get_or cs 0 0 == 10)
    then some (0, 2)
    else if c == 10
    then some (0, 1)
    else elim rest [ none ↦ none | some r ↦ some (suc r.0, r.1) ]

is_blank : ℕ → Bool
is_blank c = c == 32 || c == 9

skip_blank : List ℕ → List ℕ
skip_blank [] = []
skip_blank (c ∷ cs) = let rest = skip_blank cs in if is_blank c then rest else c ∷ cs

-- the word up to the next blank, and what is left
word_of : List ℕ → List ℕ × List ℕ
word_of [] = ([], [])
word_of (c ∷ cs) =
    let rest = word_of cs in if is_blank c then ([], c ∷ cs) else (c ∷ rest.0, rest.1)

-- `strndup` stops at a NUL
unfoldable pub until_nul : List ℕ → List ℕ
until_nul [] = []
until_nul (c ∷ cs) = let rest = until_nul cs in if c == 0 then [] else c ∷ rest

-- the words of a line, on the arguments that `argv` still has room for
words : ℕ → List ℕ → List Arg
words zero line = []
words (suc n) line =
    let s = skip_blank line in
    let word = (word_of s).0 in
    let rest = words n (word_of s).1 in
    if length s == 0 then [] else record { bytes = until_nul word; argl = length word } ∷ rest

inline_cmd : List ℕ → Option (ℕ × ℕ) → Parsed
unfolding words
inline_cmd buf none = Parsed.more
inline_cmd buf (some r) =
    let args = words max_args (take r.0 buf) in
    if length args == 0
    then Parsed.err
    else Parsed.ok (record { args = args; vc_type = 0 }) (r.0 + r.1)

-- How one bulk string ends: with more to read, with an error, or with the argument, its extended
-- type and the bytes behind it.
pub data Bulk : Type 0 where
  more err : Bulk
  got : Arg → Option ℕ → List ℕ → Bulk

-- the payload, with the header of an extended type taken off; `mem` says which sizes `malloc` has
payload_arg : (ℕ → Bool) → List ℕ → List ℕ → Bulk
payload_arg mem payload rest =
    let typed = ltb 4 (length payload) && bytes_eq (take 4 payload) wire_magic in
    let body = if typed then drop 5 payload else payload in
    if mem (length body + 1)
    then Bulk.got (record { bytes = body; argl = length body })
        (if typed then some (get_or payload 4 0) else none) rest
    else Bulk.err

-- the payload behind the length
bulk_body : (ℕ → Bool) → List ℕ → Option ℤ → Bulk
unfolding payload_arg
bulk_body mem p none = Bulk.err
bulk_body mem p (some (negsuc n)) = Bulk.err
bulk_body mem p (some (pos blen)) =
    if ltb max_inline_arg blen
    then Bulk.err
    else if ltb (length p) (blen + 2)
    then Bulk.more
    else payload_arg mem (take blen p) (drop (blen + 2) p)

bulk_line : (ℕ → Bool) → List ℕ → Option ℕ → Bulk
unfolding bulk_body
bulk_line mem p none = Bulk.more
bulk_line mem p (some cl) = bulk_body mem (drop (cl + 2) p) (parse_int64 (take (cl - 1) (drop 1 p)))

-- one round of the loop over the arguments
parse_bulk : (ℕ → Bool) → List ℕ → Bulk
unfolding bulk_line
parse_bulk mem p =
    if ltb (length p) 3
    then Bulk.more
    else if get_or p 0 0 == b'$'
    then bulk_line mem p (find_crlf p)
    else Bulk.err

-- How the loop over the arguments ends: `got` has the arguments, `cmd->vc_type` and the bytes left.
pub data Args : Type 0 where
  more err : Args
  got : List Arg → ℕ → List ℕ → Args

-- the argument before the others
before : Arg → Args → Args
before a Args.more = Args.more
before a Args.err = Args.err
before a (Args.got others ty rest) = Args.got (a ∷ others) ty rest

-- `if (i == 1) cmd->vc_type = vc_type`
pub type_after : ℕ → Option ℕ → ℕ → ℕ
type_after i none ty = ty
type_after i (some t) ty = if i == 1 then t else ty

-- the loop, on the arguments left, from argument `i` on
parse_args : (ℕ → Bool) → ℕ → ℕ → ℕ → List ℕ → Args
parse_args mem zero i ty p = Args.got [] ty p
parse_args mem (suc n) i ty p = elim (parse_bulk mem p) [
  | Bulk.more ↦ Args.more
  | Bulk.err ↦ Args.err
  | Bulk.got a t rest ↦ before a (parse_args mem n (i + 1) (type_after i t ty) rest)
]

-- `c - 32` on a lower-case letter
unfoldable pub upper : ℕ → ℕ
upper c = if leb 97 c && leb c 122 then c - 32 else c

upper_first : ℕ → List ℕ → List ℕ
upper_first zero cs = cs
upper_first (suc n) [] = []
upper_first (suc n) (c ∷ cs) = upper c ∷ upper_first n cs

-- the command name in upper case
pub upper_cmd : List Arg → List Arg
unfolding upper_first
upper_cmd [] = []
upper_cmd (a ∷ others) = record a { bytes = upper_first max_cmd_len a.bytes } ∷ others

array_end : ℕ → Args → Parsed
unfolding upper_cmd
array_end len Args.more = Parsed.more
array_end len Args.err = Parsed.err
array_end len (Args.got others ty rest) =
    Parsed.ok (record { args = upper_cmd others; vc_type = ty }) (len - length rest)

array_count : (ℕ → Bool) → List ℕ → ℕ → Option ℤ → Parsed
unfolding array_end parse_args
array_count mem buf crlf none = Parsed.err
array_count mem buf crlf (some (negsuc n)) = Parsed.err
array_count mem buf crlf (some (pos argc)) =
    if ltb max_args argc
    then Parsed.err
    else array_end (length buf) (parse_args mem argc 0 0 (drop (crlf + 2) buf))

array_cmd : (ℕ → Bool) → List ℕ → Option ℕ → Parsed
unfolding array_count
array_cmd mem buf none = Parsed.more
array_cmd mem buf (some crlf) =
    array_count mem buf crlf (parse_int64 (take (crlf - 1) (drop 1 buf)))

pub resp_parse_command : (ℕ → Bool) → List ℕ → Parsed
unfolding inline_cmd line_end array_cmd
resp_parse_command mem buf =
    if length buf == 0
    then Parsed.more
    else if get_or buf 0 0 == b'*'
    then (if ltb (length buf) 4 then Parsed.more else array_cmd mem buf (find_crlf buf))
    else inline_cmd buf (line_end buf)
