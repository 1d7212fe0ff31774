-- ===== src/Commands/Keys.antt =====
-- DBSIZE, KEYS and SCAN of net/commands.c, where the allocations of SCAN succeed. A cursor holds the
-- shard above the lowest twenty bits, which hold the slot.
use void_cache.Prelude.{
  ℕ, zero, suc, ◌+◌, ◌-◌, ◌*◌, ◌/◌, ◌%◌, ◌^◌, List, [], ◌∷◌, ◌++◌, Bool, true, false, if◌then◌else◌,
  codes, leb, ltb, length, map, drop, bit_or,
}
use void_cache.Auth.{acl_read}
use void_cache.Entry.{State, Entry, entry_key}
use void_cache.Shard.{Shard}
use void_cache.Cache.Stats.{vc_stats}
use void_cache.Proto.Decimal.{ℤ, pos, decimal}
use void_cache.Proto.Parse.{Arg}
use void_cache.Proto.Write.{twos}
use void_cache.Commands.Guard.{
  Session, need_auth, guarded, wrong_count_text, oom_text, strtoll_value, is_word,
}
use void_cache.Commands.Reply.{Host, Reply, err, send, copied}
use void_cache.Commands.Counters.{signed_word}

unfoldable pub cmd_dbsize : Host → Session → List Arg → Session
unfolding vc_stats signed_word
cmd_dbsize h s args =
    guarded (need_auth h.mem s acl_read)
      (send h (Reply.integer (signed_word (vc_stats s.cache).total_keys) ∷ []) s)

abbrev pub max_keys : ℕ
max_keys = 65536

unfoldable pub is_live : State → Bool
is_live State.live = true
is_live State.empty = false
is_live State.busy = false
is_live State.dead = false

-- the inner loop of KEYS, with the number of keys that still fit
unfoldable pub keys_of_table : ℕ → List Entry → List (List ℕ)
unfolding is_live
keys_of_table n [] = []
keys_of_table zero (e ∷ es) = []
keys_of_table (suc n) (e ∷ es) =
    let live = is_live e.state in
    let ks = keys_of_table (if live then n else suc n) es in if live then entry_key e ∷ ks else ks

-- the outer loop of KEYS
unfoldable pub keys_of_shards : ℕ → List Shard → List (List ℕ)
keys_of_shards n [] = []
keys_of_shards zero (s ∷ ss) = []
keys_of_shards (suc n) (s ∷ ss) =
    let ks = keys_of_table (suc n) s.table in ks ++ keys_of_shards (suc n - length ks) ss

-- the replies of KEYS and SCAN for a list of keys
unfoldable pub key_replies : Host → List (List ℕ) → List Reply
key_replies h ks = Reply.array (length ks) ∷ map (λ k. Reply.bulk (copied h k)) ks

-- The pattern is read and not used.
unfoldable pub keys_args : Host → Session → List Arg → Session
unfolding keys_of_shards key_replies
keys_args h s (name ∷ pattern ∷ []) =
    if h.env.malloc_ok
    then send h (key_replies h (keys_of_shards max_keys s.cache.shards)) s
    else send h (err oom_text) s
keys_args h s [] = send h (err wrong_count_text) s
keys_args h s (name ∷ []) = send h (err wrong_count_text) s
keys_args h s (name ∷ a ∷ b ∷ others) = send h (err wrong_count_text) s

unfoldable pub cmd_keys : Host → Session → List Arg → Session
unfolding keys_args
cmd_keys h s args = guarded (need_auth h.mem s acl_read) (keys_args h s args)

-- the inner loop of SCAN from a slot on, with the number of keys that still fit: the keys, and the
-- slot where it ends
unfoldable pub scan_slots : ℕ → ℕ → List Entry → List (List ℕ) × ℕ
unfolding is_live
scan_slots slot n [] = ([], slot)
scan_slots slot zero (e ∷ es) = ([], slot)
scan_slots slot (suc n) (e ∷ es) =
    let live = is_live e.state in
    let (ks, stop) = scan_slots (slot + 1) (if live then n else suc n) es in
    (if live then entry_key e ∷ ks else ks, stop)

abbrev pub cursor_at : ℕ → ℕ → ℕ
cursor_at shard slot = bit_or (shard * 2 ^ 20) slot

-- one round of the outer loop, after the inner one: `next` runs the rest from slot 0
unfoldable pub scan_next : ℕ → ℕ → List (List ℕ) × ℕ → (ℕ → List (List ℕ) × ℕ) → List (List ℕ) × ℕ
scan_next shard cap (ks, stop) next =
    if leb cap stop
    then (let (more, cursor) = next (length ks) in (ks ++ more, cursor))
    else (ks, cursor_at shard stop)

-- the outer loop of SCAN from a slot of the first of the shards on: the keys and the next cursor
unfoldable pub scan_shards : List Shard → ℕ → ℕ → ℕ → List (List ℕ) × ℕ
unfolding scan_next scan_slots
scan_shards [] shard slot n = ([], 0)
scan_shards (s ∷ ss) shard slot zero = ([], 0)
scan_shards (s ∷ ss) shard slot (suc n) =
    scan_next shard s.cap (scan_slots slot (suc n) (drop slot s.table))
      (λ m. scan_shards ss (shard + 1) 0 (suc n - m))

-- the options of SCAN: the value behind the last COUNT
unfoldable pub scan_count : List Arg → ℤ → ℤ
scan_count [] count = count
scan_count (a ∷ []) count = count
scan_count (a ∷ b ∷ rest) count =
    scan_count (b ∷ rest) (if is_word a.bytes (codes "COUNT") then strtoll_value b.bytes else count)

-- `(int)count`, as the number of keys that fit
unfoldable pub page_size : ℤ → ℕ
unfolding twos
page_size count = let w = twos count % 2 ^ 32 in if ltb w (2 ^ 31) then w else 0

-- the loops of SCAN from the place that the cursor says
unfoldable pub scan_page : List Shard → ℕ → ℕ → List (List ℕ) × ℕ
unfolding scan_shards
scan_page shards cursor n =
    let shard = cursor / 2 ^ 20 % 64 in scan_shards (drop shard shards) shard (cursor % 2 ^ 20) n

unfoldable pub scan_from : Host → Session → ℕ → ℕ → Session
unfolding key_replies scan_page
scan_from h s cursor n =
    let (ks, next) = scan_page s.cache.shards cursor n in
    send h (Reply.array 2 ∷ Reply.bulk (decimal next) ∷ key_replies h ks) s

unfoldable pub scan_args : Host → Session → List Arg → Session
unfolding scan_from page_size scan_count twos
scan_args h s [] = scan_from h s 0 10
scan_args h s (name ∷ []) = scan_from h s 0 10
scan_args h s (name ∷ cursor ∷ options) =
    scan_from h s (twos (strtoll_value cursor.bytes)) (page_size (scan_count options (pos 10)))

unfoldable pub cmd_scan : Host → Session → List Arg → Session
unfolding scan_args
cmd_scan h s args = guarded (need_auth h.mem s acl_read) (scan_args h s args)
