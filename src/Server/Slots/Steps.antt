-- ===== src/Server/Slots/Steps.antt =====
-- The workers of net/server.c as a step relation: new connections, events and idle sweeps, in any
-- order.
use void_cache.Prelude.{ℕ, ◌≡◌, List, [], ◌∷◌, Option, none, some, true, length, get_or}
use void_cache.Auth.{AuthDb}
use void_cache.Commands.Reply.{Host}
use void_cache.Server.Conns.{ConnState, Slot, Server, free_slot}
use void_cache.Server.Events.{Event, on_event, on_accept, sweep}
use void_cache.Server.Slots.{IsSlot}

-- One iteration of a loop of `worker_thread` for one event, or its sweep. The clock, the memory that
-- can be had, the peer and what the system calls return are arbitrary.
pub data Step : Server → Server → Type 0 where
  event :
      (srv : Server) (h : Host) (now : ℕ) (ev : Event) (i : ℕ) → Step srv (on_event h now ev srv i)
  accept :
      (srv : Server) (now fd : ℕ) (addr : List ℕ) (port : ℕ)
      → Step srv (on_accept now fd addr port srv)
  idle : (srv : Server) (now : ℕ) → Step srv (sweep now srv)

pub data Reach (s : Server) : Server → Type 0 where
  here : Reach s s
  next : {t u : Server} → Reach s t → Step t u → Reach s u

abbrev AllSlots : AuthDb → List Slot → Type 0
AllSlots a [] = Unit {0}
AllSlots a (sl ∷ sls) = IsSlot a sl × AllSlots a sls

-- `n` slots and the table of users of the start; every slot is as its state says
abbrev pub IsServer : AuthDb → ℕ → Server → Type 0
IsServer a n srv = (srv.auth ≡ a) × (length srv.conns ≡ n) × AllSlots a srv.conns

-- A new connection: `conn_alloc` hands out a slot that is new.
abbrev IsFresh : Slot → Type 0
IsFresh sl = (sl.state ≡ ConnState.connected) × (sl.allocated ≡ true) × (sl.conn.user ≡ none)

abbrev Hands : AuthDb → ℕ → Option ℕ × List Slot → Type 0
Hands a n (none, sls) = (length sls ≡ n) × AllSlots a sls
Hands a n (some i, sls) = (length sls ≡ n) × AllSlots a sls × IsFresh (get_or sls i free_slot)
