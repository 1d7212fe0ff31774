-- ===== src/Commands/Compat.antt =====
-- The handlers of net/commands.c that answer what clients ask for on connecting: COMMAND, ACL,
-- LATENCY, SLOWLOG, OBJECT, WAIT, XLEN, SRANDMEMBER and DEBUG. None of them reads the cache.
use void_cache.Prelude.{
  ℕ, List, [], ◌∷◌, ◌++◌, Option, none, some, if◌then◌else◌, codes, length, replicate,
}
use void_cache.Auth.{User, acl_admin}
use void_cache.Proto.Decimal.{pos}
use void_cache.Proto.Parse.{Arg}
use void_cache.Commands.Guard.{Session, need_auth, guarded, wrong_args_text}
use void_cache.Commands.Connection.{printed}
use void_cache.Commands.Reply.{Host, Reply, err, send, choose}

-- a command with subcommands
unfoldable pub with_sub : Host → Session → List Arg → (List ℕ → List Reply) → Session
with_sub h s [] replies = send h (err wrong_args_text) s
with_sub h s (name ∷ []) replies = send h (err wrong_args_text) s
with_sub h s (name ∷ sub ∷ others) replies = send h (replies sub.bytes) s

-- COMMAND
command_info : List Arg → List Reply
command_info [] = Reply.array 0 ∷ []
command_info (a ∷ others) =
    Reply.array (length (a ∷ others)) ∷ replicate (length (a ∷ others)) Reply.null

unfoldable pub cmd_command : Host → Session → List Arg → Session
unfolding command_info
cmd_command h s [] = send h (Reply.array 0 ∷ []) s
cmd_command h s (name ∷ []) = send h (Reply.array 0 ∷ []) s
cmd_command h s (name ∷ sub ∷ others) =
    send h
      (choose sub.bytes
        ((codes "COUNT", Reply.integer (pos 0) ∷ [])
          ∷ (codes "DOCS", (if s.conn.resp3 then Reply.map 0 else Reply.array 0) ∷ [])
          ∷ (codes "INFO", command_info others)
          ∷ [])
        (Reply.array 0 ∷ []))
      s

unfoldable pub cmd_debug : Host → Session → List Arg → Session
cmd_debug h s args = guarded (need_auth h.mem s acl_admin) (send h (Reply.ok ∷ []) s)

-- the name of the user, if it has one
name_or_default : List ℕ → List ℕ
name_or_default [] = codes "default"
name_or_default (c ∷ cs) = c ∷ cs

user_name : Option User → List ℕ
unfolding name_or_default
user_name none = codes "default"
user_name (some u) = name_or_default u.username

acl_replies : Session → List ℕ → List Reply
unfolding user_name
acl_replies s sub =
    choose sub
      ((codes "WHOAMI", Reply.bulk (user_name s.conn.user) ∷ [])
        ∷ (
          codes "CAT",
          Reply.array 4
              ∷ Reply.bulk (codes "read")
              ∷ Reply.bulk (codes "write")
              ∷ Reply.bulk (codes "admin")
              ∷ Reply.bulk (codes "pubsub")
              ∷ [],
        )
        ∷ (
          codes "LIST",
          Reply.array 1
              ∷ Reply.bulk (
                  printed 127 (codes "user " ++ (user_name s.conn.user ++ codes " on ~* &* +@all")))
              ∷ [],
        )
        ∷ (codes "GETUSER", Reply.null ∷ [])
        ∷ (codes "SETUSER", Reply.ok ∷ [])
        ∷ (codes "DELUSER", Reply.ok ∷ [])
        ∷ (codes "LOG", Reply.ok ∷ [])
        ∷ (codes "RESET", Reply.ok ∷ [])
        ∷ [])
      (err (codes "unknown ACL subcommand"))

unfoldable pub cmd_acl : Host → Session → List Arg → Session
unfolding with_sub acl_replies
cmd_acl h s args = with_sub h s args (acl_replies s)

latency_replies : List ℕ → List Reply
latency_replies sub =
    choose sub
      ((codes "LATEST", Reply.array 0 ∷ [])
        ∷ (codes "HISTORY", Reply.array 0 ∷ [])
        ∷ (codes "RESET", Reply.integer (pos 0) ∷ [])
        ∷ (codes "GRAPH", Reply.bulk [] ∷ [])
        ∷ [])
      (err (codes "unknown LATENCY subcommand"))

unfoldable pub cmd_latency : Host → Session → List Arg → Session
unfolding with_sub latency_replies
cmd_latency h s args = with_sub h s args latency_replies

slowlog_replies : List ℕ → List Reply
slowlog_replies sub =
    choose sub
      ((codes "GET", Reply.array 0 ∷ [])
        ∷ (codes "LEN", Reply.integer (pos 0) ∷ [])
        ∷ (codes "RESET", Reply.ok ∷ [])
        ∷ [])
      (err (codes "unknown SLOWLOG subcommand"))

unfoldable pub cmd_slowlog : Host → Session → List Arg → Session
unfolding with_sub slowlog_replies
cmd_slowlog h s args = with_sub h s args slowlog_replies

object_replies : List ℕ → List Reply
object_replies sub =
    choose sub
      ((codes "ENCODING", Reply.bulk (codes "embstr") ∷ [])
        ∷ (codes "REFCOUNT", Reply.integer (pos 1) ∷ [])
        ∷ (codes "IDLETIME", Reply.integer (pos 0) ∷ [])
        ∷ (codes "FREQ", Reply.integer (pos 0) ∷ [])
        ∷ (codes "HELP", Reply.array 0 ∷ [])
        ∷ [])
      (err (codes "unknown OBJECT subcommand"))

unfoldable pub cmd_object : Host → Session → List Arg → Session
unfolding with_sub object_replies
cmd_object h s args = with_sub h s args object_replies

unfoldable pub cmd_wait : Host → Session → List Arg → Session
cmd_wait h s args = send h (Reply.integer (pos 0) ∷ []) s

abbrev wrong_type : List Reply
wrong_type =
    Reply.error (codes "WRONGTYPE")
      (codes "Operation against a key holding the wrong kind of value")
    ∷ []

unfoldable pub cmd_xlen : Host → Session → List Arg → Session
cmd_xlen h s args = send h wrong_type s

unfoldable pub cmd_srandmember : Host → Session → List Arg → Session
cmd_srandmember h s args = send h wrong_type s
