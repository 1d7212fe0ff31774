-- ===== src/Commands/Strings.antt =====
-- The handlers of net/commands.c over single keys: SET, GET, DEL, EXISTS, EXPIRE, PERSIST, TTL, PTTL.
-- `argv[i]` has `argl[i]` bytes, as the array form of the parser leaves it.
use void_cache.Prelude.{ℕ, ◌+◌, List, [], ◌∷◌, Bool, true, false, length, ◌||◌, ltb, if◌then◌else◌}
use void_cache.Auth.{acl_read, acl_write}
use void_cache.Cache.{Err, Cache, Env, vc_set}
use void_cache.Cache.Get.{vc_get}
use void_cache.Cache.Remove.{vc_del}
use void_cache.Proto.Decimal.{pos, negsuc}
use void_cache.Proto.Parse.{Arg}
use void_cache.Proto.Write.{resp_write_integer, resp_write_bulk}
use void_cache.Commands.Guard.{
  Session, reply, reply_error, reply_null, need_auth, guarded, is_word, strtoll_value, to_uint32,
  thousandth, err_code, wrong_args_text, wrong_count_text, storage_text, get_text, oom_text, is_ok,
}
use void_cache.Commands.Connection.{ok_reply}

-- the options of SET
pub record SetOptions : Type 0 where
  pub ttl : ℕ
  pub nx : Bool
  pub xx : Bool

ex_word : List ℕ
ex_word = b'E' ∷ b'X' ∷ []

px_word : List ℕ
px_word = b'P' ∷ b'X' ∷ []

nx_word : List ℕ
nx_word = b'N' ∷ b'X' ∷ []

xx_word : List ℕ
xx_word = b'X' ∷ b'X' ∷ []

-- NX and XX
flag_option : List ℕ → SetOptions → SetOptions
unfolding nx_word xx_word
flag_option a o =
    if is_word a nx_word
    then record o { nx = true }
    else if is_word a xx_word
    then record o { xx = true }
    else o

-- the loop over the options; `skip` says that the argument is the value of the one before
unfoldable pub set_options : List Arg → Bool → SetOptions → SetOptions
unfolding flag_option ex_word px_word
set_options [] skip o = o
set_options (a ∷ []) true o = o
set_options (a ∷ []) false o = flag_option a.bytes o
set_options (a ∷ b ∷ rest) true o = set_options (b ∷ rest) false o
set_options (a ∷ b ∷ rest) false o =
    let ex = is_word a.bytes ex_word in
    let px = is_word a.bytes px_word in
    let v = strtoll_value b.bytes in
    set_options (b ∷ rest) (ex || px) (
      if ex
      then record o { ttl = to_uint32 v }
      else if px
      then record o { ttl = to_uint32 (thousandth v) }
      else flag_option a.bytes o)

-- `vc_get(...) == VC_OK`, with the session after the read
unfoldable pub exists_key : Env → Session → List ℕ → Bool × Session
unfolding is_ok
exists_key env s key =
    let ((err, val), cache) = vc_get env.now s.cache key in (is_ok err, record s { cache = cache })

-- An empty value is stored as its NUL byte.
unfoldable pub store_value : (ℕ → Bool) → Env → Session → List ℕ → List ℕ → ℕ → Session
store_value mem env s key val ttl =
    let (err, cache) = vc_set env s.cache key (if ltb 0 (length val) then val else 0 ∷ []) ttl in
    let s' = record s { cache = cache } in
    if is_ok err then ok_reply mem s' else reply_error mem err_code storage_text s'

unfoldable pub set_if_exists : (ℕ → Bool) → Env → Session → List ℕ → List ℕ → SetOptions → Session
unfolding store_value exists_key
set_if_exists mem env s key val o =
    let (found, s') = exists_key env s key in
    if o.xx
    then (if found then store_value mem env s' key val o.ttl else reply_null mem s')
    else store_value mem env s key val o.ttl

unfoldable pub set_checked : (ℕ → Bool) → Env → Session → List ℕ → List ℕ → SetOptions → Session
unfolding set_if_exists exists_key
set_checked mem env s key val o =
    let (found, s') = exists_key env s key in
    if o.nx
    then (if found then reply_null mem s' else set_if_exists mem env s' key val o)
    else set_if_exists mem env s key val o

unfoldable pub set_args : (ℕ → Bool) → Env → Session → List Arg → Session
unfolding set_checked set_options
set_args mem env s (name ∷ key ∷ val ∷ options) =
    set_checked mem env s key.bytes val.bytes
      (set_options options false (record { ttl = 0; nx = false; xx = false }))
set_args mem env s [] = reply_error mem err_code wrong_args_text s
set_args mem env s (name ∷ []) = reply_error mem err_code wrong_args_text s
set_args mem env s (name ∷ key ∷ []) = reply_error mem err_code wrong_args_text s

unfoldable pub cmd_set : (ℕ → Bool) → Env → Session → List Arg → Session
unfolding set_args
cmd_set mem env s args = guarded (need_auth mem s acl_write) (set_args mem env s args)

-- the reply to what `vc_get` returns
unfoldable pub reply_value : (ℕ → Bool) → Session → Err → List ℕ → Session
reply_value mem s Err.ok val = reply s (resp_write_bulk mem val s.conn.wbuf)
reply_value mem s Err.notfnd val = reply_null mem s
reply_value mem s Err.expired val = reply_null mem s
reply_value mem s Err.oom val = reply_error mem err_code get_text s
reply_value mem s Err.full val = reply_error mem err_code get_text s
reply_value mem s Err.wal_failed val = reply_error mem err_code get_text s
reply_value mem s Err.inval val = reply_error mem err_code get_text s

unfoldable pub get_args : (ℕ → Bool) → Env → Session → List Arg → Session
unfolding reply_value
get_args mem env s (name ∷ key ∷ []) =
    let ((err, val), cache) = vc_get env.now s.cache key.bytes in
    reply_value mem (record s { cache = cache }) err val
get_args mem env s [] = reply_error mem err_code wrong_count_text s
get_args mem env s (name ∷ []) = reply_error mem err_code wrong_count_text s
get_args mem env s (name ∷ a ∷ b ∷ others) = reply_error mem err_code wrong_count_text s

unfoldable pub cmd_get : (ℕ → Bool) → Env → Session → List Arg → Session
unfolding get_args
cmd_get mem env s args = guarded (need_auth mem s acl_read) (get_args mem env s args)

-- the loops of DEL and EXISTS
unfoldable pub del_keys : Env → Cache → List Arg → ℕ × Cache
del_keys env c [] = (0, c)
del_keys env c (a ∷ others) =
    let (err, c1) = vc_del env c a.bytes in
    let (n, c2) = del_keys env c1 others in ((if is_ok err then n + 1 else n), c2)

unfoldable pub found_keys : Env → Cache → List Arg → ℕ × Cache
found_keys env c [] = (0, c)
found_keys env c (a ∷ others) =
    let ((err, val), c1) = vc_get env.now c a.bytes in
    let (n, c2) = found_keys env c1 others in ((if is_ok err then n + 1 else n), c2)

unfoldable pub counted_reply : (ℕ → Bool) → Session → ℕ × Cache → Session
counted_reply mem s (n, c) =
    let s' = record s { cache = c } in reply s' (resp_write_integer mem (pos n) s'.conn.wbuf)

unfoldable pub del_args : (ℕ → Bool) → Env → Session → List Arg → Session
unfolding del_keys counted_reply
del_args mem env s (name ∷ key ∷ others) = counted_reply mem s (del_keys env s.cache (key ∷ others))
del_args mem env s [] = reply_error mem err_code wrong_args_text s
del_args mem env s (name ∷ []) = reply_error mem err_code wrong_args_text s

unfoldable pub cmd_del : (ℕ → Bool) → Env → Session → List Arg → Session
unfolding del_args
cmd_del mem env s args = guarded (need_auth mem s acl_write) (del_args mem env s args)

unfoldable pub exists_args : (ℕ → Bool) → Env → Session → List Arg → Session
unfolding found_keys counted_reply
exists_args mem env s (name ∷ key ∷ others) =
    counted_reply mem s (found_keys env s.cache (key ∷ others))
exists_args mem env s [] = reply_error mem err_code wrong_args_text s
exists_args mem env s (name ∷ []) = reply_error mem err_code wrong_args_text s

unfoldable pub cmd_exists : (ℕ → Bool) → Env → Session → List Arg → Session
unfolding exists_args
cmd_exists mem env s args = guarded (need_auth mem s acl_read) (exists_args mem env s args)

-- -2 for a key that is absent, and -1 for any other
unfoldable pub ttl_args : (ℕ → Bool) → Env → Session → List Arg → Session
unfolding exists_key
ttl_args mem env s (name ∷ key ∷ []) =
    let (found, s') = exists_key env s key.bytes in
    reply s' (resp_write_integer mem (negsuc (if found then 0 else 1)) s'.conn.wbuf)
ttl_args mem env s [] = reply_error mem err_code wrong_count_text s
ttl_args mem env s (name ∷ []) = reply_error mem err_code wrong_count_text s
ttl_args mem env s (name ∷ a ∷ b ∷ others) = reply_error mem err_code wrong_count_text s

unfoldable pub cmd_ttl : (ℕ → Bool) → Env → Session → List Arg → Session
unfolding ttl_args
cmd_ttl mem env s args = guarded (need_auth mem s acl_read) (ttl_args mem env s args)

unfoldable pub cmd_pttl : (ℕ → Bool) → Env → Session → List Arg → Session
cmd_pttl mem env s args = cmd_ttl mem env s args

-- the value set again with another time to live; whether that succeeds is not looked at
unfoldable pub set_again : (ℕ → Bool) → Env → Session → List ℕ → Err × List ℕ → ℕ → Session
set_again mem env s key (err, val) ttl =
    if is_ok err
    then (if env.malloc_ok
        then (let (err', cache) = vc_set env s.cache key val ttl in
            let s' = record s { cache = cache } in
            reply s' (resp_write_integer mem (pos 1) s'.conn.wbuf))
        else reply_error mem err_code oom_text s)
    else reply s (resp_write_integer mem (pos 0) s.conn.wbuf)

unfoldable pub expire_args : (ℕ → Bool) → Env → Session → List Arg → Session
unfolding set_again
expire_args mem env s (name ∷ key ∷ ttl ∷ []) =
    let (answer, cache) = vc_get env.now s.cache key.bytes in
    set_again mem env (record s { cache = cache }) key.bytes answer
      (to_uint32 (strtoll_value ttl.bytes))
expire_args mem env s [] = reply_error mem err_code wrong_count_text s
expire_args mem env s (name ∷ []) = reply_error mem err_code wrong_count_text s
expire_args mem env s (name ∷ a ∷ []) = reply_error mem err_code wrong_count_text s
expire_args mem env s (name ∷ a ∷ b ∷ c ∷ others) = reply_error mem err_code wrong_count_text s

unfoldable pub cmd_expire : (ℕ → Bool) → Env → Session → List Arg → Session
unfolding expire_args
cmd_expire mem env s args = guarded (need_auth mem s acl_write) (expire_args mem env s args)

unfoldable pub persist_args : (ℕ → Bool) → Env → Session → List Arg → Session
unfolding set_again
persist_args mem env s (name ∷ key ∷ []) =
    let (answer, cache) = vc_get env.now s.cache key.bytes in
    set_again mem env (record s { cache = cache }) key.bytes answer 0
persist_args mem env s [] = reply_error mem err_code wrong_count_text s
persist_args mem env s (name ∷ []) = reply_error mem err_code wrong_count_text s
persist_args mem env s (name ∷ a ∷ b ∷ others) = reply_error mem err_code wrong_count_text s

unfoldable pub cmd_persist : (ℕ → Bool) → Env → Session → List Arg → Session
unfolding persist_args
cmd_persist mem env s args = guarded (need_auth mem s acl_write) (persist_args mem env s args)
