-- ===== src/Client/Words.antt =====
-- From a line of words that is typed into cli/vcli.c to the command that net/proto.c reads.
use void_cache.Prelude.{
  ℕ, zero, suc, ◌-◌, ◌≤◌, ◌<◌, ◌≡◌, ◌∙◌, refl, sym, ap, arith, List, [], ◌∷◌, ◌++◌, none, some,
  Bool, true, false, length, leb, ◌==◌, if◌then◌else◌, map, append_assoc, length-append, append-nil,
}
use void_cache.Proto.Decimal.{decimal}
use void_cache.Proto.Parse.{Parsed, upper_cmd, resp_parse_command}
use void_cache.Proto.Parse.Whole.{
  AreShort, arg_of, bulk_then, bulks_then, command_then, type_from, resp_parse_command-whole,
}
use void_cache.Client.{
  is_gap, skip_gap, split_at, token_from, token_then, tokenize, encoded_arg, encode_args,
  encode_command,
}

-- no blank
abbrev pub IsUnbroken : List ℕ → Type 0
IsUnbroken [] = Unit {0}
IsUnbroken (c ∷ cs) = (is_gap c ≡ false) × IsUnbroken cs

-- not empty, without a blank, and without a quote at its start
abbrev pub IsWord : List ℕ → Type 0
IsWord [] = ⊥
IsWord (c ∷ cs) =
    ((c == b'"') ≡ false) × ((c == b'\'') ≡ false) × (is_gap c ≡ false) × IsUnbroken cs

abbrev pub AreWords : List (List ℕ) → Type 0
AreWords [] = Unit {0}
AreWords (w ∷ ws) = IsWord w × AreWords ws

-- words with a blank between each two
abbrev pub gap_before : List (List ℕ) → List ℕ → List ℕ
gap_before [] line = []
gap_before (w ∷ ws) line = b' ' ∷ line

abbrev pub line_of : List (List ℕ) → List ℕ
line_of [] = []
line_of (w ∷ ws) = w ++ gap_before ws (line_of ws)

split_at-word :
    (w : List ℕ) (ws : List (List ℕ))
    → IsUnbroken w
    → split_at is_gap (w ++ gap_before ws (line_of ws)) ≡ (w, line_of ws)
unfolding split_at is_gap
split_at-word [] [] u = refl
split_at-word [] (v ∷ ws) u = refl
split_at-word (c ∷ cs) ws (g, u) = rw g (ap (λ r. (c ∷ r.0, r.1)) (split_at-word cs ws u))

tokenize-line_of :
    (n : ℕ) (ws : List (List ℕ)) → AreWords ws → length ws ≤ n → tokenize n (line_of ws) ≡ ws
unfolding tokenize skip_gap token_then token_from
tokenize-line_of zero [] words few = refl
tokenize-line_of (suc n) [] words few = refl
tokenize-line_of zero (w ∷ ws) words few = absurd (omega arith)
tokenize-line_of (suc n) ([] ∷ ws) (w, words) few = absurd w
tokenize-line_of (suc n) ((c ∷ cs) ∷ ws) ((d, q, g, u), words) few =
    let rest = cs ++ gap_before ws (line_of ws) in
    let split = split_at-word (c ∷ cs) ws (g, u) in
    rw (g, d, q)
      (ap (λ r. r.0 ∷ tokenize n r.1) split
        ∙ ap (λ vs. (c ∷ cs) ∷ vs) (tokenize-line_of n ws words (omega arith)))

-- the buffer and the arguments to come fit
encode_args-bulks :
    (size : ℕ) (args : List (List ℕ)) (buf : List ℕ)
    → length (buf ++ bulks_then args []) < size
    → encode_args size args buf ≡ some (buf ++ bulks_then args [])
unfolding encode_args bulks_then bulk_then
encode_args-bulks size [] buf fits = ap some (sym (append-nil buf))
encode_args-bulks size (a ∷ args) buf fits =
    let bulk = encoded_arg a in
    let same : (buf ++ bulk) ++ bulks_then args [] ≡ buf ++ bulk_then a (bulks_then args []) =
      simp append_assoc in
    let within : leb size (length (buf ++ bulk)) ≡ false =
      ground (arith, fits, ap length same, length-append (buf ++ bulk) (bulks_then args [])) in
    ap (λ b. if b then none else encode_args size args (buf ++ bulk)) within
    ∙ encode_args-bulks size args (buf ++ bulk) (omega (arith, fits, ap length same))
    ∙ ap some same

encode_command-command_then :
    (size : ℕ) (args : List (List ℕ))
    → length (command_then args []) < size
    → encode_command size args ≡ some (command_then args [])
unfolding encode_command command_then
encode_command-command_then size args fits =
    let header = b'*' ∷ decimal (length args) ++ (13 ∷ 10 ∷ []) in
    let same : header ++ bulks_then args [] ≡ command_then args [] = simp append_assoc in
    encode_args-bulks size args header (omega (arith, fits, ap length same)) ∙ ap some same

-- A line of at most `n` and at most 128 words with a blank between each two, none of which starts with
-- a quote, each of at most 65,536 bytes: if the encoded command is smaller than the buffer, the client
-- sends bytes which the server reads, whole, as the command of just these words.
pub tokenize-resp_parse_command :
    (mem : ℕ → Bool) (all : (k : ℕ) → mem k ≡ true) (n size : ℕ) (ws : List (List ℕ))
    → AreWords ws
    → AreShort ws
    → length ws ≤ n
    → length ws ≤ 128
    → length (command_then ws []) < size
    → (sent : List ℕ) × (encode_command size (tokenize n (line_of ws)) ≡ some sent)
      × (resp_parse_command mem sent
          ≡ Parsed.ok
              (record { args = upper_cmd (map arg_of ws); vc_type = type_from 0 0 ws })
              (length sent))
tokenize-resp_parse_command mem all n size ws words short few few_args fits = (
  command_then ws [],
  ap (encode_command size) (tokenize-line_of n ws words few)
      ∙ encode_command-command_then size ws fits,
  resp_parse_command-whole mem all ws [] few_args short
      ∙ ap (Parsed.ok (record { args = upper_cmd (map arg_of ws); vc_type = type_from 0 0 ws }))
          {x = length (command_then ws []) - 0} {y = length (command_then ws [])} (omega arith),
)
