-- ===== src/Commands/Reply.antt =====
-- The replies of net/commands.c as values, written one after another. No handler looks at the result
-- of a writer: a reply that fails is followed by the next one.
use void_cache.Prelude.{
  ℕ, ◌+◌, ◌-◌, ◌≡◌, refl, List, [], ◌∷◌, ◌++◌, Bool, length, leb, if◌then◌else◌,
}
use void_cache.Cache.{Env}
use void_cache.Proto.{Buf}
use void_cache.Proto.Decimal.{ℤ}
use void_cache.Proto.Parse.{until_nul}
use void_cache.Proto.Write.{
  Written, buf_printf, resp_write_ok, resp_write_null_compat, resp_write_error, resp_write_simple,
  resp_write_integer, resp_write_bool, resp_write_bulk, resp_write_array_header,
  resp_write_map_header, resp_write_vc_typed,
}
use void_cache.Commands.Guard.{Session, reply, is_word, err_code}

-- What a handler takes from outside: `mem` says which sizes `realloc` has; a double is its 64 bits,
-- which `strtod` reads from a text and `%g` prints; `beyond n` are the `n` bytes behind a copy of
-- `strndup`.
pub record Host : Type 0 where
  pub mem : ℕ → Bool
  pub env : Env
  pub strtod : List ℕ → ℕ
  pub g_text : ℕ → List ℕ
  pub beyond : ℕ → List ℕ

-- one call of a writer
pub data Reply : Type 0 where
  ok null : Reply
  simple : List ℕ → Reply
  error : List ℕ → List ℕ → Reply
  integer : ℤ → Reply
  double : ℕ → Reply
  boolean : Bool → Reply
  bulk : List ℕ → Reply
  array map : ℕ → Reply
  typed : ℕ → List ℕ → Reply

-- `resp_write_double`
resp_write_double : Host → ℕ → Buf → Written
resp_write_double h d b = buf_printf h.mem (b',' ∷ h.g_text d ++ (13 ∷ 10 ∷ [])) b

unfoldable pub write : Host → Bool → Reply → Buf → Written
unfolding resp_write_double
write h resp3 Reply.ok b = resp_write_ok h.mem b
write h resp3 Reply.null b = resp_write_null_compat h.mem resp3 b
write h resp3 (Reply.simple s) b = resp_write_simple h.mem s b
write h resp3 (Reply.error code msg) b = resp_write_error h.mem code msg b
write h resp3 (Reply.integer n) b = resp_write_integer h.mem n b
write h resp3 (Reply.double d) b = resp_write_double h d b
write h resp3 (Reply.boolean v) b = resp_write_bool h.mem v b
write h resp3 (Reply.bulk s) b = resp_write_bulk h.mem s b
write h resp3 (Reply.array n) b = resp_write_array_header h.mem n b
write h resp3 (Reply.map n) b = resp_write_map_header h.mem n b
write h resp3 (Reply.typed ty payload) b = resp_write_vc_typed h.mem ty payload b

unfoldable pub send : Host → List Reply → Session → Session
send h [] s = s
send h (r ∷ rs) s = send h rs (reply s (write h s.conn.resp3 r s.conn.wbuf))

-- `ERR(conn, "ERR", msg)`
abbrev pub err : List ℕ → List Reply
err msg = Reply.error err_code msg ∷ []

-- the chain of `if (strcasecmp(sub, word) == 0) { ...; return; }`
unfoldable pub choose {ℓ} : {A : Type ℓ} → List ℕ → List (List ℕ × A) → A → A
choose sub [] other = other
choose sub ((word, x) ∷ cases) other = if is_word sub word then x else choose sub cases other

-- `strndup(k, kl)` read as `kl` bytes
unfoldable pub copied : Host → List ℕ → List ℕ
copied h k =
    let u = until_nul k in
    if leb (length k) (length u + 1) then k else u ++ 0 ∷ h.beyond (length k - length u - 1)

-- what a command leaves alone when it only replies
abbrev pub Untouched : Session → Session → Type 0
Untouched s s' = (s'.cache ≡ s.cache) × (s'.auth ≡ s.auth) × (s'.conn.user ≡ s.conn.user)

pub send-Untouched : (h : Host) (rs : List Reply) (s : Session) → Untouched s (send h rs s)
unfolding send reply
send-Untouched h [] s = (refl, refl, refl)
send-Untouched h (r ∷ rs) s = send-Untouched h rs (reply s (write h s.conn.resp3 r s.conn.wbuf))
