-- ===== src/Commands/Pages.antt =====
-- What KEYS of net/commands.c lists.
pub mod Scan
use void_cache.Prelude.{
  ℕ, zero, suc, ◌+◌, ◌-◌, ◌≤◌, ◌<◌, ◌≡◌, ◌∙◌, refl, sym, ap, arith, List, [], ◌∷◌, ◌++◌, Option,
  none, some, Bool, true, false, length, take, drop, leb, if◌then◌else◌, append-nil, append_assoc,
  take-append_rest, length-append, length-drop, length-take, min, leb→le, ◌⊎◌, inl, inr, Bool-cases,
  codes,
}
use void_cache.Auth.{acl_read}
use void_cache.Entry.{State, empty, busy, live, dead, Entry, entry_key}
use void_cache.Shard.{Shard}
use void_cache.Proto.Parse.{Arg}
use void_cache.Commands.Guard.{Session, need_auth, guarded, oom_text}
use void_cache.Commands.Reply.{Host, err, send}
use void_cache.Commands.Keys.{
  is_live, max_keys, keys_of_table, keys_of_shards, key_replies, keys_args, cmd_keys, scan_slots,
  scan_next, scan_shards, cursor_at,
}

-- the keys of the live entries of a table, in the order of the slots
live_if : Bool → Entry → List (List ℕ) → List (List ℕ)
live_if true e ks = entry_key e ∷ ks
live_if false e ks = ks

pub live_keys : List Entry → List (List ℕ)
unfolding live_if
live_keys [] = []
live_keys (e ∷ es) = live_if (is_live e.state) e (live_keys es)

-- and of all tables
pub all_keys : List Shard → List (List ℕ)
all_keys [] = []
all_keys (s ∷ ss) = live_keys s.table ++ all_keys ss

-- from a slot of the first table on
pub keys_from : List Shard → ℕ → List (List ℕ)
keys_from [] slot = []
keys_from (s ∷ ss) slot = live_keys (drop slot s.table) ++ all_keys ss

keys_of_table-take : (n : ℕ) (es : List Entry) → keys_of_table n es ≡ take n (live_keys es)
unfolding keys_of_table live_keys
keys_of_table-take zero [] = refl
keys_of_table-take (suc n) [] = refl
keys_of_table-take zero (e ∷ es) = refl
keys_of_table-take (suc n) (e ∷ es) =
    by_state (is_live e.state) (keys_of_table-take n es) (keys_of_table-take (suc n) es)
  where
    by_state :
        (b : Bool)
        → keys_of_table n es ≡ take n (live_keys es)
        → keys_of_table (suc n) es ≡ take (suc n) (live_keys es)
        → (let ks = keys_of_table (if b then n else suc n) es in if b then entry_key e ∷ ks else ks)
          ≡ take (suc n) (live_if b e (live_keys es))
    by_state true p q = ap (λ ks. entry_key e ∷ ks) p
    by_state false p q = q

keys_of_shards-take : (n : ℕ) (ss : List Shard) → keys_of_shards n ss ≡ take n (all_keys ss)
unfolding keys_of_shards all_keys
keys_of_shards-take zero [] = refl
keys_of_shards-take (suc n) [] = refl
keys_of_shards-take zero (s ∷ ss) = refl
keys_of_shards-take (suc n) (s ∷ ss) =
    let same = keys_of_table-take (suc n) s.table in
    let m = suc n - length (keys_of_table (suc n) s.table) in
    ap (λ ks. keys_of_table (suc n) s.table ++ ks) (keys_of_shards-take m ss)
    ∙ ap (λ ks. ks ++ take (suc n - length ks) (all_keys ss)) same
    ∙ sym (take-append_rest (suc n) (live_keys s.table) (all_keys ss))

-- KEYS lists the first 65,536 keys of live entries, expired or not, whatever the pattern.
pub cmd_keys-take :
    (h : Host) (s : Session) (name pattern : Arg)
    → need_auth h.mem s acl_read ≡ none
    → h.env.malloc_ok ≡ true
    → cmd_keys h s (name ∷ pattern ∷ [])
      ≡ send h (key_replies h (take max_keys (all_keys s.cache.shards))) s
unfolding cmd_keys keys_args guarded
cmd_keys-take h s name pattern passed room = rw passed (
    ap
      (λ b.
        if b
        then send h (key_replies h (keys_of_shards max_keys s.cache.shards)) s
        else send h (err oom_text) s)
      room
    ∙ ap (λ ks. send h (key_replies h ks) s) (keys_of_shards-take max_keys s.cache.shards))
