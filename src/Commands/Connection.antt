-- ===== src/Commands/Connection.antt =====
-- Handlers of net/commands.c that concern the connection alone.
use void_cache.Prelude.{
  ℕ, List, [], ◌∷◌, ◌++◌, Option, none, some, Bool, true, false, if◌then◌else◌, take, codes, ◌==◌,
  ◌||◌,
}
use void_cache.Auth.{User, vc_auth_verify}
use void_cache.Proto.Parse.{Arg, until_nul}
use void_cache.Proto.Decimal.{pos, decimal}
use void_cache.Proto.Write.{resp_write_ok, resp_write_simple, resp_write_bulk, resp_write_hello}
use void_cache.Commands.Guard.{
  Conn, Session, is_word, to_uint32, reply, reply_error, strtoll_value, err_code, wrongpass_code,
  wrongpass_text, auth_args_text, wrong_count_text, default_name, db_text, is_zero, pong_text,
  reset_text, wrong_args_text,
}
use void_cache.Commands.Reply.{Host, Reply, err, send, choose}

abbrev pub ok_reply : (ℕ → Bool) → Session → Session
ok_reply mem s = reply s (resp_write_ok mem s.conn.wbuf)

unfoldable pub cmd_ping : (ℕ → Bool) → Session → List Arg → Session
cmd_ping mem s [] = reply s (resp_write_simple mem pong_text s.conn.wbuf)
cmd_ping mem s (name ∷ []) = reply s (resp_write_simple mem pong_text s.conn.wbuf)
cmd_ping mem s (name ∷ a ∷ others) = reply s (resp_write_bulk mem a.bytes s.conn.wbuf)

-- what `cmd_auth` does with the answer of `vc_auth_verify`; the token, which no command reads, is
-- left out
unfoldable pub logged_in : (ℕ → Bool) → Session → Option User → Session
logged_in mem s none = reply_error mem wrongpass_code wrongpass_text s
logged_in mem s (some u) = ok_reply mem (record s { conn = record s.conn { user = some u } })

unfoldable pub auth_as : (ℕ → Bool) → Session → List ℕ → List ℕ → Session
unfolding logged_in
auth_as mem s uname upass =
    if s.auth.require_auth
    then logged_in mem s (vc_auth_verify s.auth uname upass)
    else ok_reply mem s

unfoldable pub cmd_auth : (ℕ → Bool) → Session → List Arg → Session
unfolding auth_as
cmd_auth mem s (name ∷ upass ∷ []) = auth_as mem s default_name upass.bytes
cmd_auth mem s (name ∷ uname ∷ upass ∷ []) = auth_as mem s uname.bytes upass.bytes
cmd_auth mem s [] = reply_error mem err_code auth_args_text s
cmd_auth mem s (name ∷ []) = reply_error mem err_code auth_args_text s
cmd_auth mem s (name ∷ a ∷ b ∷ c ∷ others) = reply_error mem err_code auth_args_text s

unfoldable pub cmd_quit : (ℕ → Bool) → Session → List Arg → Session
cmd_quit mem s args =
    let s' = ok_reply mem s in record s' { conn = record s'.conn { closing = true } }

unfoldable pub cmd_reset : (ℕ → Bool) → Session → List Arg → Session
cmd_reset mem s args =
    let s' = record s { conn = record s.conn { db_idx = 0 } } in
    reply s' (resp_write_simple mem reset_text s'.conn.wbuf)

unfoldable pub cmd_select : (ℕ → Bool) → Session → List Arg → Session
cmd_select mem s (name ∷ idx ∷ []) =
    if is_zero (strtoll_value idx.bytes) then ok_reply mem s else reply_error mem err_code db_text s
cmd_select mem s [] = reply_error mem err_code wrong_count_text s
cmd_select mem s (name ∷ []) = reply_error mem err_code wrong_count_text s
cmd_select mem s (name ∷ a ∷ b ∷ others) = reply_error mem err_code wrong_count_text s

-- "2.0.0"
abbrev pub server_version : List ℕ
server_version = codes "2.0.0"

-- What HELLO does with the answer of `vc_auth_verify`: `next` runs the loop on. `false` means that
-- the handler has replied with an error and returns.
unfoldable pub hello_login :
    Host → Session → Option User → (Session → Bool × Session) → Bool × Session
hello_login h s none next = (false, reply_error h.mem wrongpass_code wrongpass_text s)
hello_login h s (some u) next = next (record s { conn = record s.conn { user = some u } })

-- the loop over the options of HELLO
unfoldable pub hello_options : Host → List Arg → Session → Bool × Session
unfolding hello_login
hello_options h [] s = (true, s)
hello_options h (a ∷ []) s = (true, s)
hello_options h (a ∷ b ∷ []) s = (true, s)
hello_options h (a ∷ b ∷ c ∷ rest) s = elim (is_word a.bytes (codes "AUTH")) [
  | true ↦
      hello_login h s (vc_auth_verify s.auth (until_nul b.bytes) (until_nul c.bytes))
        (hello_options h rest)
  | false ↦ hello_options h (b ∷ c ∷ rest) s
]

-- the end of HELLO, with the protocol version as an `int` of 32 bits
unfoldable pub hello_end : Host → ℕ → Bool × Session → Session
hello_end h proto (false, s) = s
hello_end h proto (true, s) =
    let s' = record s { conn = record s.conn { resp3 = proto == 3 } } in
    reply s' (resp_write_hello h.mem server_version s'.node_id s'.conn.resp3 s'.conn.wbuf)

unfoldable pub hello_as : Host → Session → ℕ → List Arg → Session
unfolding hello_end hello_options
hello_as h s proto options =
    if proto == 2 || proto == 3
    then hello_end h proto (hello_options h options s)
    else reply_error h.mem (codes "NOPROTO") (codes "unsupported protocol version") s

unfoldable pub cmd_hello : Host → Session → List Arg → Session
unfolding hello_as
cmd_hello h s [] = hello_as h s 2 []
cmd_hello h s (name ∷ []) = hello_as h s 2 []
cmd_hello h s (name ∷ v ∷ options) = hello_as h s (to_uint32 (strtoll_value v.bytes)) options

-- `snprintf` into `n` bytes
abbrev pub printed : ℕ → List ℕ → List ℕ
printed n text = take n text

-- the texts of CLIENT INFO and CLIENT LIST
client_info : Conn → List ℕ
client_info c =
    codes "id="
    ++ (decimal c.fd
        ++ (codes "\r\naddr="
            ++ (c.peer_addr ++ (b':' ∷ decimal c.peer_port ++ codes "\r\ncmd=client\r\n"))))

client_list : Conn → List ℕ
client_list c =
    codes "id="
    ++ (decimal c.fd
        ++ (codes " addr="
            ++ (c.peer_addr
                ++ (b':' ∷ decimal c.peer_port
                    ++ (codes " fd="
                        ++ (decimal c.fd
                            ++ (codes
                                  " name= age=0 idle=0 flags=N db=0 sub=0 psub=0 multi=-1 rbs=16384 rbp=0 "
                                ++ codes "obl=0 oll=0 omem=0 events=r cmd=client resp=2\n")))))))

client_replies : Conn → List (List ℕ × List Reply)
unfolding client_info client_list
client_replies c =
    (codes "SETNAME", Reply.ok ∷ [])
    ∷ (codes "GETNAME", Reply.bulk [] ∷ [])
    ∷ (codes "ID", Reply.integer (pos c.fd) ∷ [])
    ∷ (codes "NO-EVICT", Reply.ok ∷ [])
    ∷ (codes "NO-TOUCH", Reply.ok ∷ [])
    ∷ (codes "UNPAUSE", Reply.ok ∷ [])
    ∷ (codes "PAUSE", Reply.ok ∷ [])
    ∷ (codes "CACHING", Reply.ok ∷ [])
    ∷ (codes "REPLY", Reply.ok ∷ [])
    ∷ (codes "TRACKING", Reply.ok ∷ [])
    ∷ (codes "INFO", Reply.bulk (printed 255 (client_info c)) ∷ [])
    ∷ (codes "LIST", Reply.bulk (printed 511 (client_list c)) ∷ [])
    ∷ []

unfoldable pub cmd_client : Host → Session → List Arg → Session
unfolding client_replies
cmd_client h s [] = send h (err wrong_args_text) s
cmd_client h s (name ∷ []) = send h (err wrong_args_text) s
cmd_client h s (name ∷ sub ∷ others) =
    send h (choose sub.bytes (client_replies s.conn) (err (codes "unknown CLIENT subcommand"))) s
