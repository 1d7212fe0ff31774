-- ===== src/Proto/Parse/Whole.antt =====
-- `resp_parse_command` of net/proto.c on a command that has arrived whole, with any bytes behind it.
use void_cache.Prelude.{
  ℕ, suc, ◌+◌, ◌-◌, ◌≤◌, ◌≡◌, arith, refl, List, [], ◌∷◌, ◌++◌, Option, none, some, Bool, true,
  false, length, take, drop, get_or, ltb, ◌==◌, ◌&&◌, bytes_eq, if◌then◌else◌, map, take_append,
  length-append,
}
use void_cache.Proto.Decimal.{pos, decimal}
use void_cache.Proto.Decimal.Printed.{
  AreDigits, decimal-AreDigits, length-decimal_pos, parse_int64-decimal,
}
use void_cache.Proto.Parse.{
  Arg, Parsed, Bulk, Args, wire_magic, find_crlf, payload_arg, bulk_body, bulk_line, parse_bulk,
  before, type_after, parse_args, upper_cmd, array_count, array_cmd, resp_parse_command,
}

-- `$<length>\r\n<bytes>\r\n` in front of other bytes
unfoldable pub bulk_then : List ℕ → List ℕ → List ℕ
bulk_then s rest = b'$' ∷ decimal (length s) ++ (13 ∷ 10 ∷ s ++ (13 ∷ 10 ∷ rest))

unfoldable pub bulks_then : List (List ℕ) → List ℕ → List ℕ
bulks_then [] rest = rest
bulks_then (s ∷ ss) rest = bulk_then s (bulks_then ss rest)

-- `*<count>\r\n` and the arguments, in front of other bytes
unfoldable pub command_then : List (List ℕ) → List ℕ → List ℕ
command_then ss rest = b'*' ∷ decimal (length ss) ++ (13 ∷ 10 ∷ bulks_then ss rest)

-- has the header of an extended type
pub is_typed : List ℕ → Bool
is_typed s = ltb 4 (length s) && bytes_eq (take 4 s) wire_magic

-- the argument without that header, and the type in it
pub arg_of : List ℕ → Arg
arg_of s =
    let body = if is_typed s then drop 5 s else s in record { bytes = body; argl = length body }

pub type_of : List ℕ → Option ℕ
type_of s = if is_typed s then some (get_or s 4 0) else none

-- `cmd->vc_type` after the arguments from number `i` on
pub type_from : ℕ → ℕ → List (List ℕ) → ℕ
type_from i ty [] = ty
type_from i ty (s ∷ ss) = type_from (i + 1) (type_after i (type_of s) ty) ss

-- every argument is short enough for the parser
abbrev pub AreShort : List (List ℕ) → Type 0
AreShort [] = Unit
AreShort (s ∷ ss) = (length s ≤ 65536) × AreShort ss

find_crlf-digits :
    (ds rest : List ℕ) → AreDigits ds → find_crlf (ds ++ (13 ∷ 10 ∷ rest)) ≡ some (length ds)
unfolding find_crlf
find_crlf-digits [] rest d =
    let more : ltb 0 (suc (length rest)) ≡ true = ground arith in rw more refl
find_crlf-digits (c ∷ ds) rest (low, high, d) =
    let not_cr : (c == 13) ≡ false = ground arith in rw (not_cr, find_crlf-digits ds rest d) refl

drop_line : (ds rest : List ℕ) → drop (length ds + 2) (ds ++ (13 ∷ 10 ∷ rest)) ≡ rest
drop_line [] rest = refl
drop_line (c ∷ ds) rest =
    let e : suc (length ds) + 2 ≡ suc (length ds + 2) = omega arith in rw e (drop_line ds rest)

-- what stands in the line and behind it, for any first byte
line_text :
    (c : ℕ) (ds rest : List ℕ)
    → take (suc (length ds) - 1) (drop 1 (c ∷ ds ++ (13 ∷ 10 ∷ rest))) ≡ ds
line_text c ds rest =
    let e : suc (length ds) - 1 ≡ length ds = omega arith in rw e (take_append ds _)

line_rest :
    (c : ℕ) (ds rest : List ℕ) → drop (suc (length ds) + 2) (c ∷ ds ++ (13 ∷ 10 ∷ rest)) ≡ rest
line_rest c ds rest =
    let e : suc (length ds) + 2 ≡ suc (length ds + 2) = omega arith in rw e (drop_line ds rest)

module _ (mem : ℕ → Bool) (all : (n : ℕ) → mem n ≡ true) where
  payload_arg-arg_of :
      (s rest : List ℕ) → payload_arg mem s rest ≡ Bulk.got (arg_of s) (type_of s) rest
  unfolding payload_arg arg_of type_of is_typed
  payload_arg-arg_of s rest = rw (all _) refl

  bulk_body-whole :
      (s rest : List ℕ)
      → length s ≤ 65536
      → bulk_body mem (s ++ (13 ∷ 10 ∷ rest)) (some (pos (length s)))
        ≡ Bulk.got (arg_of s) (type_of s) rest
  unfolding bulk_body
  bulk_body-whole s rest h =
      let n : length (s ++ (13 ∷ 10 ∷ rest)) ≡ length s + suc (suc (length rest)) =
        length-append s (13 ∷ 10 ∷ rest) in
      let small : ltb 65536 (length s) ≡ false = ground arith in
      let there : ltb (length (s ++ (13 ∷ 10 ∷ rest))) (length s + 2) ≡ false = ground (arith, n) in
      rw (small, there, take_append s (13 ∷ 10 ∷ rest), drop_line s rest)
        (payload_arg-arg_of s rest)

  parse_bulk-whole :
      (s rest : List ℕ)
      → length s ≤ 65536
      → parse_bulk mem (bulk_then s rest) ≡ Bulk.got (arg_of s) (type_of s) rest
  unfolding parse_bulk bulk_line bulk_then find_crlf
  parse_bulk-whole s rest h =
      let ds = decimal (length s) in
      let body = s ++ (13 ∷ 10 ∷ rest) in
      let n : length (ds ++ (13 ∷ 10 ∷ body)) ≡ length ds + suc (suc (length body)) =
        length-append ds (13 ∷ 10 ∷ body) in
      let long : ltb (suc (length (ds ++ (13 ∷ 10 ∷ body)))) 3 ≡ false =
        ground (arith, n, length-decimal_pos (length s)) in
      rw
        (
          long,
          find_crlf-digits ds body (decimal-AreDigits (length s)),
          line_text b'$' ds body,
          line_rest b'$' ds body,
          parse_int64-decimal (length s) (omega (arith, h)),
        )
        (bulk_body-whole s rest h)

  before_got :
      (a : Arg) (r : Args) (others : List Arg) (ty : ℕ) (rest : List ℕ)
      → r ≡ Args.got others ty rest
      → before a r ≡ Args.got (a ∷ others) ty rest
  unfolding before
  before_got a r others ty rest e = rw e refl

  parse_args-whole :
      (ss : List (List ℕ)) (i ty : ℕ) (rest : List ℕ)
      → AreShort ss
      → parse_args mem (length ss) i ty (bulks_then ss rest)
        ≡ Args.got (map arg_of ss) (type_from i ty ss) rest
  unfolding parse_args bulks_then type_from
  parse_args-whole [] i ty rest short = refl
  parse_args-whole (s ∷ ss) i ty rest (h, short) =
      rw (parse_bulk-whole s (bulks_then ss rest) h, parse_args)
        (before_got (arg_of s) _ (map arg_of ss) _ rest
          (parse_args-whole ss (i + 1) (type_after i (type_of s) ty) rest short))

  pub resp_parse_command-whole :
      (ss : List (List ℕ)) (rest : List ℕ)
      → length ss ≤ 128
      → AreShort ss
      → resp_parse_command mem (command_then ss rest)
        ≡ Parsed.ok
            (record { args = upper_cmd (map arg_of ss); vc_type = type_from 0 0 ss })
            (length (command_then ss rest) - length rest)
  unfolding resp_parse_command array_cmd array_count command_then find_crlf
  resp_parse_command-whole ss rest few short =
      let ds = decimal (length ss) in
      let body = bulks_then ss rest in
      let n : length (ds ++ (13 ∷ 10 ∷ body)) ≡ length ds + suc (suc (length body)) =
        length-append ds (13 ∷ 10 ∷ body) in
      let long : ltb (suc (length (ds ++ (13 ∷ 10 ∷ body)))) 4 ≡ false =
        ground (arith, n, length-decimal_pos (length ss)) in
      let some_bytes : (suc (length (ds ++ (13 ∷ 10 ∷ body))) == 0) ≡ false = ground arith in
      let few_args : ltb 128 (length ss) ≡ false = ground arith in
      rw
        (
          some_bytes,
          long,
          find_crlf-digits ds body (decimal-AreDigits (length ss)),
          line_text b'*' ds body,
          parse_int64-decimal (length ss) (omega (arith, few)),
          few_args,
          line_rest b'*' ds body,
        )
        (rw (parse_args-whole ss 0 0 rest short) refl)
