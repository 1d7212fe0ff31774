-- ===== src/Client/Tests.antt =====
-- A line that is typed into the client.
use void_cache.Prelude.{ℕ, ◌≡◌, ◌<◌, refl, arith, List, [], ◌∷◌, true, some, codes, length, map}
use void_cache.Proto.Parse.{Parsed, max_args, upper_cmd, resp_parse_command}
use void_cache.Proto.Parse.Whole.{arg_of, bulk_then, bulks_then, command_then, type_from}
use void_cache.Proto.Decimal.{decimal}
use void_cache.Client.{
  is_gap, skip_gap, split_at, token_from, token_then, tokenize, cmd_size, encode_command,
}
use void_cache.Client.Words.{AreWords, line_of, tokenize-resp_parse_command}

abbrev get_k : List (List ℕ)
get_k = codes "get" ∷ codes "k" ∷ []

get_k-AreWords : AreWords get_k
unfolding is_gap
get_k-AreWords = ((refl, refl, refl, (refl, (refl, tt))), ((refl, refl, refl, tt), tt))

get_k_fits : length (command_then get_k []) < cmd_size
unfolding command_then bulks_then bulk_then decimal
get_k_fits = omega arith

-- quotes keep blanks
tokenize_quoted :
    tokenize max_args (codes "SET k \"a b\"") ≡ codes "SET" ∷ codes "k" ∷ codes "a b" ∷ []
unfolding tokenize skip_gap token_then token_from split_at is_gap
tokenize_quoted = refl

tokenize-resp_parse_command_example :
    (sent : List ℕ) × (encode_command cmd_size (tokenize max_args (line_of get_k)) ≡ some sent)
    × (resp_parse_command (λ n. true) sent
        ≡ Parsed.ok
            (record { args = upper_cmd (map arg_of get_k); vc_type = type_from 0 0 get_k })
            (length sent))
tokenize-resp_parse_command_example =
    tokenize-resp_parse_command (λ n. true) (λ n. refl) max_args cmd_size get_k get_k-AreWords
      (omega arith, (omega arith, tt)) (omega arith) (omega arith) get_k_fits
