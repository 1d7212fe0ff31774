-- ===== src/Auth/Users.antt =====
-- Who is let in by `vc_auth_verify` of net/auth.c.
use void_cache.Prelude.{ℕ, ◌<◌, ◌≡◌, ◌⊎◌, ◌^◌, arith, List, [], ◌∷◌, true}
use void_cache.Prelude.Words.{bit_or-lt}
use void_cache.Auth.{User, parse_acl_flags, flags_from, flag_of}

-- the user stands in the table
abbrev pub Among : User → List User → Type 0
Among u [] = ⊥
Among u (v ∷ vs) = (u ≡ v) ⊎ Among u vs

-- The user is enabled and has this name and this password hash.
pub record IsNamed (username pw_hash : List ℕ) (u : User) : Type 0 where
  pub is_enabled : u.enabled ≡ true
  pub name : u.username ≡ username
  pub password : u.pw_sha256 ≡ pw_hash

flag_of-lt : (acl c : ℕ) → acl < 2 ^ 4 → flag_of acl c < 2 ^ 4
unfolding flag_of
flag_of-lt acl c h = ground (
  arith,
  bit_or-lt 4 acl 1 h (omega arith),
  bit_or-lt 4 acl 2 h (omega arith),
  bit_or-lt 4 acl 4 h (omega arith),
  bit_or-lt 4 acl 8 h (omega arith),
)

flags_from-lt : (acl : ℕ) (cs : List ℕ) → acl < 2 ^ 4 → flags_from acl cs < 2 ^ 4
unfolding flags_from
flags_from-lt acl [] h = h
flags_from-lt acl (c ∷ cs) h = flags_from-lt (flag_of acl c) cs (flag_of-lt acl c h)

-- Whatever the letters, only the four defined permissions are granted.
pub parse_acl_flags-lt : (flags : List ℕ) → parse_acl_flags flags < 16
unfolding parse_acl_flags
parse_acl_flags-lt flags = flags_from-lt 0 flags (omega arith)
