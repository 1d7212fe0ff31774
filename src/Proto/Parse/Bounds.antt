-- ===== src/Proto/Parse/Bounds.antt =====
-- What `resp_parse_command` of net/proto.c may answer for any bytes at all.
use void_cache.Prelude.{
  if_cases, ℕ, zero, suc, ◌+◌, ◌-◌, ◌≤◌, ◌<◌, ◌≡◌, arith, refl, ap, List, [], ◌∷◌, Option, none,
  some, Bool, true, false, length, take, drop, get_or, ltb, ◌==◌, ◌&&◌, bytes_eq, if◌then◌else◌,
  length-drop, length-take,
}
use void_cache.Proto.Decimal.{ℤ, pos, negsuc, parse_int64}
use void_cache.Proto.Parse.{
  Arg, Parsed, Bulk, Args, wire_magic, find_crlf, line_end, skip_blank, word_of, words, inline_cmd,
  payload_arg, bulk_body, bulk_line, parse_bulk, before, type_after, parse_args, upper_cmd,
  array_end, array_count, array_cmd, resp_parse_command,
}

-- a line end lies in the bytes
find_crlf-lt : (cs : List ℕ) (i : ℕ) → find_crlf cs ≡ some i → i + 1 < length cs
unfolding find_crlf
find_crlf-lt [] i e = cc
find_crlf-lt (c ∷ cs) i e =
    by_test (c == 13 && (ltb 0 (length cs) && get_or cs 0 0 == 10)) refl (find_crlf cs)
      (find_crlf-lt cs) e
  where
    by_test :
        (t : Bool)
        → (c == 13 && (ltb 0 (length cs) && get_or cs 0 0 == 10)) ≡ t
        → (o : Option ℕ) → ((j : ℕ) → o ≡ some j → j + 1 < length cs)
        → (if t then some 0 else elim o as (λ x. Option ℕ) [ none ↦ none | some j ↦ some (suc j) ])
          ≡ some i
        → i + 1 < suc (length cs)
    by_test true t o ih q = let z : 0 ≡ i = cc in ground (arith, t, z)
    by_test false t none ih q = cc
    by_test false t (some j) ih q = let z : suc j ≡ i = cc in omega (arith, z, ih j refl)

-- an argument of the array form
record IsArg (a : Arg) : Type 0 where
  short : a.argl ≤ 65536
  whole : a.argl ≡ length a.bytes

abbrev AreArgs : List Arg → Type 0
AreArgs [] = Unit
AreArgs (a ∷ others) = IsArg a × AreArgs others

-- a bulk string taken from `p`
abbrev Taken : List ℕ → Bulk → Type 0
Taken p Bulk.more = Unit
Taken p Bulk.err = Unit
Taken p (Bulk.got a t rest) = IsArg a × (length rest ≤ length p)

payload_arg-Taken :
    (mem : ℕ → Bool) (payload rest p : List ℕ)
    → length payload ≤ 65536
    → length rest ≤ length p
    → Taken p (payload_arg mem payload rest)
unfolding payload_arg
payload_arg-Taken mem payload rest p short left =
    let typed = ltb 4 (length payload) && bytes_eq (take 4 payload) wire_magic in
    let body = if typed then drop 5 payload else payload in
    if_cases (Taken p) (mem (length body + 1)) _ Bulk.err
      (λ _. (
        record {
          short =
              if_cases (λ bs. length bs ≤ 65536) typed (drop 5 payload) payload
                (λ _. omega (arith, short, length-drop 5 payload)) (λ _. short);
          whole = refl;
        },
        left,
      ))
      (λ _. tt)

bulk_body-Taken :
    (mem : ℕ → Bool) (p q : List ℕ) (n : Option ℤ)
    → length q ≤ length p
    → Taken p (bulk_body mem q n)
unfolding bulk_body
bulk_body-Taken mem p q none h = tt
bulk_body-Taken mem p q (some (negsuc n)) h = tt
bulk_body-Taken mem p q (some (pos blen)) h =
    if_cases (Taken p) (ltb 65536 blen) Bulk.err _ (λ _. tt)
      (λ small.
        if_cases (Taken p) (ltb (length q) (blen + 2)) Bulk.more _ (λ _. tt)
          (λ _.
            payload_arg-Taken mem (take blen q) (drop (blen + 2) q) p
              (ground (arith, small, length-take blen q))
              (omega (arith, h, length-drop (blen + 2) q))))

parse_bulk-Taken : (mem : ℕ → Bool) (p : List ℕ) → Taken p (parse_bulk mem p)
unfolding parse_bulk bulk_line
parse_bulk-Taken mem p =
    if_cases (Taken p) (ltb (length p) 3) Bulk.more _ (λ _. tt)
      (λ _.
        if_cases (Taken p) (get_or p 0 0 == b'$') _ Bulk.err (λ _. by_line (find_crlf p)) (λ _. tt))
  where
    by_line : (o : Option ℕ) → Taken p (bulk_line mem p o)
    by_line none = tt
    by_line (some cl) =
        bulk_body-Taken mem p (drop (cl + 2) p) (parse_int64 (take (cl - 1) (drop 1 p)))
          (omega (arith, length-drop (cl + 2) p))

-- the arguments taken from `p`
abbrev AllTaken : ℕ → List ℕ → Args → Type 0
AllTaken n p Args.more = Unit
AllTaken n p Args.err = Unit
AllTaken n p (Args.got args ty rest) = (length args ≡ n) × AreArgs args × (length rest ≤ length p)

parse_args-AllTaken :
    (mem : ℕ → Bool) (n i ty : ℕ) (p : List ℕ) → AllTaken n p (parse_args mem n i ty p)
unfolding parse_args before
parse_args-AllTaken mem zero i ty p = (refl, tt, omega arith)
parse_args-AllTaken mem (suc n) i ty p =
    by_bulk (parse_bulk mem p) (parse_bulk-Taken mem p)
      (λ t rest. parse_args-AllTaken mem n (i + 1) (type_after i t ty) rest)
  where
    with_first :
        (a : Arg) (rest : List ℕ) (r : Args)
        → IsArg a
        → length rest ≤ length p
        → AllTaken n rest r
        → AllTaken (suc n) p (before a r)
    with_first a rest Args.more is_arg h all = tt
    with_first a rest Args.err is_arg h all = tt
    with_first a rest (Args.got args ty' left) is_arg h (count, all, shorter) =
        (ap suc count, (is_arg, all), omega (arith, h, shorter))

    by_bulk :
        (b : Bulk)
        → Taken p b
        → ((t : Option ℕ) (rest : List ℕ)
            → AllTaken n rest (parse_args mem n (i + 1) (type_after i t ty) rest))
        → AllTaken (suc n) p (elim b as (λ x. Args) [
          | Bulk.more ↦ Args.more
          | Bulk.err ↦ Args.err
          | Bulk.got a t rest ↦ before a (parse_args mem n (i + 1) (type_after i t ty) rest)
        ])
    by_bulk Bulk.more taken ih = tt
    by_bulk Bulk.err taken ih = tt
    by_bulk (Bulk.got a t rest) (is_arg, h) ih = with_first a rest _ is_arg h (ih t rest)

-- What the parser may answer on `buf`: a command takes at least one byte and no more than there
-- are, and has at most 128 arguments.
abbrev pub Answers : List ℕ → Parsed → Type 0
Answers buf Parsed.more = Unit
Answers buf Parsed.err = Unit
Answers buf (Parsed.ok cmd n) = (0 < n) × (n ≤ length buf) × (length cmd.args ≤ 128)

length-words : (n : ℕ) (line : List ℕ) → length (words n line) ≤ n
unfolding words
length-words zero line = omega arith
length-words (suc n) line =
    if_cases (λ args. length args ≤ suc n) (length (skip_blank line) == 0) [] _ (λ _. omega arith)
      (λ _. omega (arith, length-words n (word_of (skip_blank line)).1))

-- the end of a line and what is skipped there lie in the bytes
line_end-lt : (cs : List ℕ) (i k : ℕ) → line_end cs ≡ some (i, k) → (0 < k) × (i + k ≤ length cs)
unfolding line_end
line_end-lt [] i k e = cc
line_end-lt (c ∷ cs) i k e =
    by_crlf (c == 13 && (ltb 0 (length cs) && get_or cs 0 0 == 10)) refl (c == 10) (line_end cs)
      (line_end-lt cs) e
  where
    by_crlf :
        (t : Bool)
        → (c == 13 && (ltb 0 (length cs) && get_or cs 0 0 == 10)) ≡ t
        → (u : Bool) (o : Option (ℕ × ℕ))
        → ((a b : ℕ) → o ≡ some (a, b) → (0 < b) × (a + b ≤ length cs))
        → (if t
            then some (0, 2)
            else if u
            then some (0, 1)
            else elim o as (λ x. Option (ℕ × ℕ)) [ none ↦ none | some r ↦ some (suc r.0, r.1) ])
          ≡ some (i, k)
        → (0 < k) × (i + k ≤ suc (length cs))
    by_crlf true t u o ih q =
        let a : 0 ≡ i = cc in let b : 2 ≡ k = cc in (omega (arith, b), ground (arith, t, a, b))
    by_crlf false t true o ih q =
        let a : 0 ≡ i = cc in let b : 1 ≡ k = cc in (omega (arith, b), omega (arith, a, b))
    by_crlf false t false none ih q = cc
    by_crlf false t false (some (x, y)) ih q =
        let a : suc x ≡ i = cc in
        let b : y ≡ k = cc in
        let (pos_k, le) = ih x y refl in (omega (arith, b, pos_k), omega (arith, a, b, le))

length-upper_cmd : (args : List Arg) → length (upper_cmd args) ≡ length args
unfolding upper_cmd
length-upper_cmd [] = refl
length-upper_cmd (a ∷ others) = refl

inline_cmd-Answers :
    (buf : List ℕ) (o : Option (ℕ × ℕ))
    → ((i k : ℕ) → o ≡ some (i, k) → (0 < k) × (i + k ≤ length buf))
    → Answers buf (inline_cmd buf o)
unfolding inline_cmd
inline_cmd-Answers buf none inside = tt
inline_cmd-Answers buf (some (i, k)) inside =
    let (pos_k, le) = inside i k refl in
    let args = words 128 (take i buf) in
    if_cases (Answers buf) (length args == 0) Parsed.err _ (λ _. tt)
      (λ _. (omega (arith, pos_k), le, length-words 128 (take i buf)))

array_count-Answers :
    (mem : ℕ → Bool) (buf : List ℕ) (crlf : ℕ) (n : Option ℤ)
    → crlf + 1 < length buf
    → Answers buf (array_count mem buf crlf n)
unfolding array_count array_end
array_count-Answers mem buf crlf none h = tt
array_count-Answers mem buf crlf (some (negsuc n)) h = tt
array_count-Answers mem buf crlf (some (pos argc)) h =
    if_cases (Answers buf) (ltb 128 argc) Parsed.err _ (λ _. tt)
      (λ few.
        by_args _ (parse_args-AllTaken mem argc 0 0 (drop (crlf + 2) buf)) (ground (arith, few)))
  where
    by_args :
        (r : Args)
        → AllTaken argc (drop (crlf + 2) buf) r
        → argc ≤ 128
        → Answers buf (array_end (length buf) r)
    by_args Args.more taken few = tt
    by_args Args.err taken few = tt
    by_args (Args.got args ty rest) (count, all, shorter) few =
        let left = length-drop (crlf + 2) buf in
        (
          omega (arith, shorter, left, h),
          omega arith,
          omega (arith, length-upper_cmd args, count, few),
        )

-- For any bytes: a command that is parsed takes at least one byte and no more than there are, and
-- has at most 128 arguments, in both forms and whether or not `malloc` fails.
pub resp_parse_command-Answers :
    (mem : ℕ → Bool) (buf : List ℕ) → Answers buf (resp_parse_command mem buf)
unfolding resp_parse_command array_cmd
resp_parse_command-Answers mem buf =
    if_cases (Answers buf) (length buf == 0) Parsed.more _ (λ _. tt)
      (λ _.
        if_cases (Answers buf) (get_or buf 0 0 == b'*') _ _
          (λ _.
            if_cases (Answers buf) (ltb (length buf) 4) Parsed.more _ (λ _. tt)
              (λ _. by_line (find_crlf buf) (find_crlf-lt buf)))
          (λ _. inline_cmd-Answers buf (line_end buf) (line_end-lt buf)))
  where
    by_line :
        (o : Option ℕ)
        → ((i : ℕ) → o ≡ some i → i + 1 < length buf)
        → Answers buf (array_cmd mem buf o)
    by_line none inside = tt
    by_line (some crlf) inside =
        array_count-Answers mem buf crlf (parse_int64 (take (crlf - 1) (drop 1 buf)))
          (inside crlf refl)
