-- ===== src/Auth/Tests.antt =====
-- Hashes, users and tokens at known values.
use void_cache.Prelude.{ℕ, ◌≡◌, refl, List, [], ◌∷◌, true}
use void_cache.Auth.{User, AuthDb}
use void_cache.Auth.Sha256.{vc_sha256, padded, padded_len}

abbrev abc : List ℕ
abc = b'a' ∷ b'b' ∷ b'c' ∷ []

abbrev no_users : AuthDb
no_users = record { users = []; require_auth = true }

abbrev user_abc : User
user_abc = record { username = abc; pw_sha256 = vc_sha256 abc; acl = 3; enabled = true }

abbrev one_user : AuthDb
one_user = record { users = user_abc ∷ []; require_auth = true }

-- the published hash of `abc`
sha256_abc :
    vc_sha256 abc
    ≡ 0xba ∷ 0x78 ∷ 0x16 ∷ 0xbf ∷ 0x8f ∷ 0x01 ∷ 0xcf ∷ 0xea ∷ 0x41 ∷ 0x41 ∷ 0x40 ∷ 0xde ∷ 0x5d
      ∷ 0xae ∷ 0x22 ∷ 0x23 ∷ 0xb0 ∷ 0x03 ∷ 0x61 ∷ 0xa3 ∷ 0x96 ∷ 0x17 ∷ 0x7a ∷ 0x9c ∷ 0xb4 ∷ 0x10
      ∷ 0xff ∷ 0x61 ∷ 0xf2 ∷ 0x00 ∷ 0x15 ∷ 0xad ∷ []
unfolding vc_sha256 padded padded_len
sha256_abc = refl
