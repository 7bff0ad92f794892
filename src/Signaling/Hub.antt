-- ===== src/Signaling/Hub.antt =====
-- The hub: its state, how it talks to clients and to Redis, and the combinators in which the
-- handlers of internal/signaling/hub.go are written. A handler is a function on the hub's state;
-- an early return is the end of a branch.
pub mod Calls
pub mod Ice
pub mod Membership
pub mod Rooms
pub mod Reconnect
pub mod KeepsOrchestrator
pub mod KeepsRooms
pub mod KeepsReconnect
pub mod Authority
pub mod Glare
pub mod Resume
pub mod Answer
pub mod RoomErrors
pub mod Run
pub mod Stopped
pub mod Connections
pub mod Reachable
pub mod Hosts
pub mod Spared
pub mod Orphans
pub mod Recover
pub mod Keeps
pub mod Invariant
use lalo_lao_alo.Base.{
  ℕ, suc, Bool, true, false, not, List, [], ◌∷◌, ◌++◌, map, Option, none, some, if◌then◌else◌, ◌==◌,
  is_empty, filter, update,
}
use lalo_lao_alo.Common.{UserId, CallId, DeviceId, Error, Result, ok, err}
use lalo_lao_alo.Redis.{Redis, M}
use lalo_lao_alo.Signaling.Message.{Message, Code, error, IceCandidate}
use lalo_lao_alo.Events.{Event}
use lalo_lao_alo.Orchestrator.Services.{Services, O}

-- A connection of one device of a user; `conn` tells two connections of a device apart.
pub record Client : Type 0 where
  pub user_id : UserId
  pub device_id : DeviceId
  pub conn : ℕ

-- A message put on a client's queue. `seq` is 0 where the source assigns none.
pub record Sent : Type 0 where
  pub to : Client
  pub seq : ℕ
  pub message : Message

-- A reconnection timer that has neither fired nor been cancelled.
pub record GraceTimer : Type 0 where
  pub user_id : UserId
  pub call_id : CallId
  pub peer_id : UserId

-- `clients u` holds the devices of `u` in the order in which an iteration over Go's map meets
-- them. `grace` is `graceTimers`, with the number of a timer for its cancel function, and `timers`
-- the goroutines of `reconnectGraceTimeout` that still wait; `room_grace` and `room_timers` are the
-- same for the rooms. `rooms` lists the rooms with their members, each in the order in which an
-- iteration meets them, and `hosts` is `roomHosts`, where 0 is no host. `group_calls` is
-- whether an orchestrator is configured. `outbox` and `published`
-- record what was sent, oldest first; a client whose queue is full or closed drops what it is sent.
pub record Hub : Type 0 where
  pub services : Services
  pub open services use *
  pub clients : UserId → List Client
  pub seq_counters : UserId → ℕ
  pub grace : UserId → Option ℕ
  pub timers : ℕ → Option GraceTimer
  pub next_timer : ℕ
  pub ice_buf : CallId → List IceCandidate
  pub outbox : List Sent
  pub rooms : List (CallId × List UserId)
  pub hosts : CallId → UserId
  pub group_calls : Bool
  pub room_grace : UserId → Option ℕ
  pub room_timers : ℕ → Option UserId

abbrev pub Action : Type 0
Action = Hub → Hub

abbrev pub skip : Action
skip h = h

infixr 6 ◌⨾◌
abbrev pub ◌⨾◌ : Action → Action → Action
◌⨾◌ f g h = g (f h)

abbrev pub with_rdb : Redis → Action
with_rdb r h = record h { services = record h.services { rdb = r } }

abbrev pub answered : {A : Type 0} → Hub → Redis × Result A → (Error → Action) → (A → Action) → Hub
answered h (r, ok a) bad good = good a (with_rdb r h)
answered h (r, err e) bad good = bad e (with_rdb r h)

-- A call of the session store, with what follows an error and what follows a result.
unfoldable pub asking : {A : Type 0} → M A → (Error → Action) → (A → Action) → Action
asking m bad good h = answered h (m h.rdb) bad good

abbrev pub with_services : Services → Action
with_services w h = record h { services = w }

abbrev pub requested :
    {A : Type 0} → Hub → Services × Result A → (Error → Action) → (A → Action) → Hub
requested h (w, ok a) bad good = good a (with_services w h)
requested h (w, err e) bad good = bad e (with_services w h)

-- A call of the orchestrator.
unfoldable pub requesting : {A : Type 0} → O A → (Error → Action) → (A → Action) → Action
requesting m bad good h = requested h (m h.services) bad good

-- `SendJSON` and `SendError`.
unfoldable pub send : Client → Message → Action
send c m h = record h { outbox = h.outbox ++ record { to = c; seq = 0; message = m } ∷ [] }

unfoldable pub send_error : Client → Code → CallId → Action
unfolding send
send_error c code id = send c (error code id)

abbrev pub deliver : ℕ → Message → List Client → List Sent
deliver n m = map (λ c. record { to = c; seq = n; message = m })

-- The tail of `sendToUser` and `sendToUserExcept`: one number from `nextSeq` for all of them.
unfoldable pub send_all : UserId → List Client → Message → Action
send_all u clients m h = record h {
  seq_counters =
      if is_empty clients then h.seq_counters else update h.seq_counters u (suc (h.seq_counters u));
  outbox = h.outbox ++ deliver (suc (h.seq_counters u)) m clients;
}

unfoldable pub send_to_user : UserId → Message → Action
unfolding send_all
send_to_user u m h = send_all u (h.clients u) m h

unfoldable pub send_to_user_except : UserId → DeviceId → Message → Action
unfolding send_all
send_to_user_except u device m h =
    send_all u (filter (λ c. not (c.device_id == device)) (h.clients u)) m h

unfoldable pub publish : Event → Action
publish e h = record h { services = record h.services { published = h.published ++ e ∷ [] } }

unfoldable pub is_user_online : UserId → Hub → Bool
is_user_online u h = not (is_empty (h.clients u))
