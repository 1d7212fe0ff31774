-- ===== src/Commands/Guard.antt =====
-- What the handlers of net/commands.c share: the server, the connection, the guard, and the texts.
use void_cache.Prelude.{
  true, false, ℕ, zero, suc, ◌+◌, ◌-◌, ◌*◌, ◌/◌, ◌%◌, ◌^◌, List, [], ◌∷◌, Option, none, some, Bool,
  map, leb, ltb, ◌==◌, ◌&&◌, bytes_eq, if◌then◌else◌, codes,
}
use void_cache.Auth.{User, AuthDb, vc_acl_check}
use void_cache.Cache.{Cache, Err}
use void_cache.Proto.{Buf}
use void_cache.Proto.Decimal.{ℤ, pos, negsuc, skip_space}
use void_cache.Proto.Parse.{until_nul, upper}
use void_cache.Proto.Write.{Written, resp_write_error, resp_write_null_compat}

-- What the handlers use of `vc_conn_t`; no user is NULL.
pub record Conn : Type 0 where
  pub fd : ℕ
  pub user : Option User
  pub resp3 : Bool
  pub db_idx : ℕ
  pub closing : Bool
  pub wbuf : Buf
  pub peer_addr : List ℕ
  pub peer_port : ℕ

-- What the handlers use of `vc_server_cfg_t`; no address is NULL.
pub record Config : Type 0 where
  pub port : ℕ
  pub cluster_enabled : Bool
  pub cluster_announce_addr : Option (List ℕ)
  pub cluster_announce_port : ℕ

-- What the handlers use of `vcserver_t`, with the connection. The clocks stand still during a
-- command, and `mem` says which sizes `realloc` has.
pub record Session : Type 0 where
  pub cfg : Config
  pub auth : AuthDb
  pub cache : Cache
  pub conn : Conn
  pub total_conns : ℕ
  pub total_commands : ℕ
  pub node_id : List ℕ

-- a reply, whose failure no handler looks at
unfoldable pub reply : Session → Written → Session
reply s w = record s { conn = record s.conn { wbuf = w.1 } }

abbrev pub err_code : List ℕ
err_code = codes "ERR"

abbrev pub noauth_code : List ℕ
noauth_code = codes "NOAUTH"

abbrev pub noperm_code : List ℕ
noperm_code = codes "NOPERM"

abbrev pub wrongpass_code : List ℕ
wrongpass_code = codes "WRONGPASS"

abbrev pub noauth_text : List ℕ
noauth_text = codes "Authentication required. Use AUTH command."

abbrev pub noperm_text : List ℕ
noperm_text = codes "Permission denied for this command."

abbrev pub wrongpass_text : List ℕ
wrongpass_text = codes "Invalid username or password"

abbrev pub auth_args_text : List ℕ
auth_args_text = codes "wrong number of arguments for AUTH"

abbrev pub wrong_args_text : List ℕ
wrong_args_text = codes "wrong arguments"

abbrev pub wrong_count_text : List ℕ
wrong_count_text = codes "wrong number of arguments"

abbrev pub storage_text : List ℕ
storage_text = codes "storage error"

abbrev pub get_text : List ℕ
get_text = codes "get error"

abbrev pub default_name : List ℕ
default_name = codes "default"

abbrev pub pong_text : List ℕ
pong_text = codes "PONG"

abbrev pub reset_text : List ℕ
reset_text = codes "RESET"

abbrev pub db_text : List ℕ
db_text = codes "VoidCache supports only DB 0 (keyspace is global)"

abbrev pub oom_text : List ℕ
oom_text = codes "OOM"

-- `ERR(c, code, m)`
unfoldable pub reply_error : (ℕ → Bool) → List ℕ → List ℕ → Session → Session
unfolding reply
reply_error mem code msg s = reply s (resp_write_error mem code msg s.conn.wbuf)

-- `NULLREPLY(c)`
unfoldable pub reply_null : (ℕ → Bool) → Session → Session
unfolding reply
reply_null mem s = reply s (resp_write_null_compat mem s.conn.resp3 s.conn.wbuf)

-- `need_auth`: the session after its reply if the command is refused
unfoldable pub refuse : (ℕ → Bool) → Session → Option User → ℕ → Option Session
refuse mem s none acl = some (reply_error mem noauth_code noauth_text s)
refuse mem s (some u) acl =
    if vc_acl_check (some u) acl then none else some (reply_error mem noperm_code noperm_text s)

unfoldable pub need_auth : (ℕ → Bool) → Session → ℕ → Option Session
unfolding refuse
need_auth mem s acl = if s.auth.require_auth then refuse mem s s.conn.user acl else none

-- a handler that returns when `need_auth` has refused the command
unfoldable pub guarded : Option Session → Session → Session
guarded none s = s
guarded (some refused) s = refused

-- `strcasecmp(a, word) == 0`, for a word in upper case
unfoldable pub is_word : List ℕ → List ℕ → Bool
unfolding upper until_nul bytes_eq
is_word a word = bytes_eq (map upper (until_nul a)) word

-- the value that `strtoll` stores, whether or not the text is a number
unfoldable pub leading : ℕ → List ℕ → ℕ
leading acc [] = acc
leading acc (c ∷ cs) =
    let rest = leading (acc * 10 + (c - 48)) cs in if leb 48 c && leb c 57 then rest else acc

unfoldable pub at_most : ℕ → ℕ
at_most n = if ltb n (2 ^ 63) then n else 2 ^ 63 - 1

unfoldable pub negated : ℕ → ℤ
negated zero = pos 0
negated (suc n) = negsuc (at_most n)

unfoldable pub signed_value : List ℕ → ℤ
unfolding leading at_most negated
signed_value [] = pos 0
signed_value (c ∷ cs) =
    if c == b'-'
    then negated (leading 0 cs)
    else if c == b'+'
    then pos (at_most (leading 0 cs))
    else pos (at_most (leading 0 (c ∷ cs)))

unfoldable pub strtoll_value : List ℕ → ℤ
unfolding signed_value
strtoll_value a = signed_value (skip_space a)

-- `(uint32_t)v`, and `(uint32_t)(v / 1000)`
unfoldable pub to_uint32 : ℤ → ℕ
to_uint32 (pos n) = n % 2 ^ 32
to_uint32 (negsuc n) = 2 ^ 32 - 1 - n % 2 ^ 32

unfoldable pub thousandth : ℤ → ℤ
unfolding negated
thousandth (pos n) = pos (n / 1000)
thousandth (negsuc n) = negated ((n + 1) / 1000)

unfoldable pub is_zero : ℤ → Bool
is_zero (pos n) = n == 0
is_zero (negsuc n) = false

-- `== VC_OK`
unfoldable pub is_ok : Err → Bool
is_ok Err.ok = true
is_ok Err.oom = false
is_ok Err.full = false
is_ok Err.notfnd = false
is_ok Err.expired = false
is_ok Err.wal_failed = false
is_ok Err.inval = false
