-- ===== src/Commands/Values.antt =====
-- The handlers of net/commands.c that read, join and move values: TYPE, MGET, MSET, APPEND, RENAME.
use void_cache.Prelude.{
  ℕ, ◌+◌, List, [], ◌∷◌, ◌++◌, Option, none, some, Bool, if◌then◌else◌, codes, ltb, ◌==◌, ◌&&◌,
  bytes_eq, length, take, get_or,
}
use void_cache.Auth.{acl_read, acl_write}
use void_cache.Cache.{Err, Cache, Env, vc_set}
use void_cache.Cache.Get.{vc_get}
use void_cache.Cache.Remove.{vc_del}
use void_cache.Proto.Decimal.{pos}
use void_cache.Proto.Parse.{Arg, wire_magic}
use void_cache.Commands.Guard.{
  Session, need_auth, guarded, wrong_args_text, wrong_count_text, oom_text, is_ok,
}
use void_cache.Commands.Reply.{Host, Reply, err, send}

-- a session whose cache is another
abbrev pub with_cache : Session → Cache → Session
with_cache s c = record s { cache = c }

-- has the header of an extended type
unfoldable pub is_typed : List ℕ → Bool
is_typed v = ltb 4 (length v) && bytes_eq (take 4 v) wire_magic

-- the reply of TYPE to the type byte
type_names : ℕ → List (ℕ × List ℕ) → List ℕ
type_names t [] = codes "string"
type_names t ((c, name) ∷ others) = if t == c then name else type_names t others

type_name : List ℕ → List ℕ
unfolding is_typed type_names
type_name v =
    if is_typed v
    then type_names (get_or v 4 0) (
        (b'i', codes "integer")
        ∷ (b'd', codes "float")
        ∷ (b'b', codes "boolean")
        ∷ (b'j', codes "json")
        ∷ (b'l', codes "list")
        ∷ (b'h', codes "hash")
        ∷ (b'B', codes "binary")
        ∷ [])
    else codes "string"

unfoldable pub type_args : Host → Session → List Arg → Session
unfolding type_name is_ok
type_args h s (name ∷ key ∷ []) =
    let ((e, val), c) = vc_get h.env.now s.cache key.bytes in
    send h (Reply.simple (if is_ok e then type_name val else codes "none") ∷ []) (with_cache s c)
type_args h s [] = send h (err wrong_count_text) s
type_args h s (name ∷ []) = send h (err wrong_count_text) s
type_args h s (name ∷ a ∷ b ∷ others) = send h (err wrong_count_text) s

unfoldable pub cmd_type : Host → Session → List Arg → Session
unfolding type_args
cmd_type h s args = guarded (need_auth h.mem s acl_read) (type_args h s args)

-- one key of MGET
unfoldable pub mget_one : Host → Session → List ℕ → Session
unfolding is_ok
mget_one h s key =
    let ((e, val), c) = vc_get h.env.now s.cache key in
    send h ((if is_ok e then Reply.bulk val else Reply.null) ∷ []) (with_cache s c)

-- the loop of MGET
unfoldable pub mget_keys : Host → Session → List Arg → Session
unfolding mget_one
mget_keys h s [] = s
mget_keys h s (key ∷ others) = mget_keys h (mget_one h s key.bytes) others

unfoldable pub mget_args : Host → Session → List Arg → Session
unfolding mget_keys
mget_args h s [] = send h (err wrong_args_text) s
mget_args h s (name ∷ []) = send h (err wrong_args_text) s
mget_args h s (name ∷ key ∷ others) =
    mget_keys h (send h (Reply.array (length (key ∷ others)) ∷ []) s) (key ∷ others)

unfoldable pub cmd_mget : Host → Session → List Arg → Session
unfolding mget_args
cmd_mget h s args = guarded (need_auth h.mem s acl_read) (mget_args h s args)

-- the pairs of an MSET, if their number is right
unfoldable pub pairs_of : List Arg → Option (List (List ℕ × List ℕ))
pairs_of [] = some []
pairs_of (key ∷ []) = none
pairs_of (key ∷ val ∷ rest) = elim (pairs_of rest) [
  | none ↦ none
  | some ps ↦ some ((key.bytes, val.bytes) ∷ ps)
]

-- the loop of MSET; whether a `vc_set` succeeds is not looked at
pub mset_pairs : Env → Cache → List (List ℕ × List ℕ) → Cache
mset_pairs env c [] = c
mset_pairs env c ((key, val) ∷ ps) = mset_pairs env (vc_set env c key val 0).1 ps

unfoldable pub mset_end : Host → Session → Option (List (List ℕ × List ℕ)) → Session
unfolding mset_pairs
mset_end h s none = send h (err wrong_count_text) s
mset_end h s (some []) = send h (err wrong_count_text) s
mset_end h s (some (p ∷ ps)) =
    send h (Reply.ok ∷ []) (with_cache s (mset_pairs h.env s.cache (p ∷ ps)))

unfoldable pub mset_args : Host → Session → List Arg → Session
unfolding mset_end pairs_of
mset_args h s [] = send h (err wrong_count_text) s
mset_args h s (name ∷ rest) = mset_end h s (pairs_of rest)

unfoldable pub cmd_mset : Host → Session → List Arg → Session
unfolding mset_args
cmd_mset h s args = guarded (need_auth h.mem s acl_write) (mset_args h s args)

-- APPEND after the read
unfoldable pub append_to : Host → Session → List ℕ → List ℕ → Err × List ℕ → Session
append_to h s key more (e, val) =
    if is_ok e
    then (if h.env.malloc_ok
        then send h (Reply.integer (pos (length val + length more)) ∷ [])
            (with_cache s (vc_set h.env s.cache key (val ++ more) 0).1)
        else send h (err oom_text) s)
    else send h (Reply.integer (pos (length more)) ∷ [])
        (with_cache s (vc_set h.env s.cache key more 0).1)

unfoldable pub append_args : Host → Session → List Arg → Session
unfolding append_to is_ok
append_args h s (name ∷ key ∷ more ∷ []) =
    let (answer, c) = vc_get h.env.now s.cache key.bytes in
    append_to h (with_cache s c) key.bytes more.bytes answer
append_args h s [] = send h (err wrong_count_text) s
append_args h s (name ∷ []) = send h (err wrong_count_text) s
append_args h s (name ∷ a ∷ []) = send h (err wrong_count_text) s
append_args h s (name ∷ a ∷ b ∷ c ∷ others) = send h (err wrong_count_text) s

unfoldable pub cmd_append : Host → Session → List Arg → Session
unfolding append_args
cmd_append h s args = guarded (need_auth h.mem s acl_write) (append_args h s args)

-- RENAME after the read
unfoldable pub rename_to : Host → Session → List ℕ → List ℕ → Err × List ℕ → Session
rename_to h s key new (e, val) =
    if is_ok e
    then (if h.env.malloc_ok
        then send h (Reply.ok ∷ [])
            (with_cache s (vc_set h.env (vc_del h.env s.cache key).1 new val 0).1)
        else send h (err oom_text) s)
    else send h (err (codes "no such key")) s

unfoldable pub rename_args : Host → Session → List Arg → Session
unfolding rename_to is_ok
rename_args h s (name ∷ key ∷ new ∷ []) =
    let (answer, c) = vc_get h.env.now s.cache key.bytes in
    rename_to h (with_cache s c) key.bytes new.bytes answer
rename_args h s [] = send h (err wrong_count_text) s
rename_args h s (name ∷ []) = send h (err wrong_count_text) s
rename_args h s (name ∷ a ∷ []) = send h (err wrong_count_text) s
rename_args h s (name ∷ a ∷ b ∷ c ∷ others) = send h (err wrong_count_text) s

unfoldable pub cmd_rename : Host → Session → List Arg → Session
unfolding rename_args
cmd_rename h s args = guarded (need_auth h.mem s acl_write) (rename_args h s args)
