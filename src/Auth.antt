-- ===== src/Auth.antt =====
-- Users, passwords and permissions: net/auth.c and net/auth.h. Names and passwords are C strings
-- without a NUL byte.
pub mod Sha256
pub mod Users
mod Tests
use void_cache.Prelude.{
  ℕ, zero, suc, ◌+◌, ◌/◌, ◌%◌, List, [], ◌∷◌, ◌++◌, Option, none, some, Bool, true, false, length,
  take, ◌-◌, leb, ltb, ◌==◌, ◌&&◌, bit_and, bit_or, bytes_eq, if◌then◌else◌,
}
use void_cache.Auth.Sha256.{vc_sha256}

-- VC_ACL_*
abbrev pub acl_read : ℕ
acl_read = 1

abbrev pub acl_write : ℕ
acl_write = 2

abbrev pub acl_admin : ℕ
acl_admin = 4

abbrev pub acl_pubsub : ℕ
acl_pubsub = 8

abbrev pub acl_all : ℕ
acl_all = 15

-- VC_AUTH_MAX_USERS, VC_AUTH_USERNAME_MAX
abbrev pub max_users : ℕ
max_users = 64

abbrev pub username_max : ℕ
username_max = 64

-- `vc_user_t`
pub record User : Type 0 where
  pub username : List ℕ
  pub pw_sha256 : List ℕ
  pub acl : ℕ
  pub enabled : Bool

-- `vc_auth_db_t`; `count` is the length.
pub record AuthDb : Type 0 where
  pub users : List User
  pub require_auth : Bool

-- one letter of `parse_acl_flags`
flag_of : ℕ → ℕ → ℕ
flag_of acl c =
    if c == b'r'
    then bit_or acl acl_read
    else if c == b'w'
    then bit_or acl acl_write
    else if c == b'a'
    then bit_or acl acl_admin
    else if c == b'p'
    then bit_or acl acl_pubsub
    else if c == b'*'
    then acl_all
    else acl

flags_from : ℕ → List ℕ → ℕ
flags_from acl [] = acl
flags_from acl (c ∷ cs) = flags_from (flag_of acl c) cs

pub parse_acl_flags : List ℕ → ℕ
unfolding flags_from flag_of
parse_acl_flags flags = flags_from 0 flags

-- the table of users, without its end
append_user : List User → User → List User
append_user [] u = u ∷ []
append_user (v ∷ vs) u = v ∷ append_user vs u

-- `vc_auth_add_user`; `none` is -1.
pub vc_auth_add_user : AuthDb → List ℕ → List ℕ → ℕ → Option AuthDb
unfolding append_user
vc_auth_add_user db username password acl =
    if leb max_users (length db.users)
    then none
    else some (record {
      users = append_user db.users (record {
        username = take (username_max - 1) username;
        pw_sha256 = vc_sha256 password;
        acl = acl;
        enabled = true;
      });
      require_auth = true;
    })

-- the synthetic superuser
abbrev pub anonymous : User
anonymous = record {
  username = b'a' ∷ b'n' ∷ b'o' ∷ b'n' ∷ b'y' ∷ b'm' ∷ b'o' ∷ b'u' ∷ b's' ∷ [];
  pw_sha256 = [];
  acl = acl_all;
  enabled = true;
}

-- the tests on one user
pub matches : List ℕ → List ℕ → User → Bool
matches username pw_hash u =
    u.enabled
    && (length u.username == length username
        && (bytes_eq u.username username && bytes_eq u.pw_sha256 pw_hash))

verify_in : List User → List ℕ → List ℕ → Option User
verify_in [] username pw_hash = none
verify_in (u ∷ us) username pw_hash =
    let rest = verify_in us username pw_hash in if matches username pw_hash u then some u else rest

pub vc_auth_verify : AuthDb → List ℕ → List ℕ → Option User
unfolding verify_in
vc_auth_verify db username password =
    if db.require_auth then verify_in db.users username (vc_sha256 password) else some anonymous

-- `vc_acl_check`; no user is NULL.
unfoldable pub vc_acl_check : Option User → ℕ → Bool
vc_acl_check none need = false
vc_acl_check (some u) need = bit_and u.acl need == need

-- the two hexadecimal digits of each byte of a token, as `vc_auth_gen_token` writes them
hex_digit : ℕ → ℕ
hex_digit n = if ltb n 10 then 48 + n else 87 + n

pub token_hex : List ℕ → List ℕ
unfolding hex_digit
token_hex [] = []
token_hex (x ∷ xs) = hex_digit (x / 16) ∷ hex_digit (x % 16) ∷ token_hex xs
