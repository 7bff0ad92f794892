-- ===== src/Redis.antt =====
-- The Redis database that the signaling hub (internal/signaling/session.go) and the orchestrator
-- (internal/session/store.go) share, with the record that the hub keeps in it.
--
-- A map of keys is a function. The two services use the same key `session:<id>` for records of two
-- types, and different keys for a user's active call: `user:active_call:<id>` (`call_of`) and
-- `user:<id>:active_call` (`active_call`). Redis itself is not in the repository: a command is
-- atomic, and it fails, with no effect, exactly where `fails` says so of its number; a transaction
-- under WATCH also fails where `conflicts` says that another client wrote the watched key. Both
-- functions are arbitrary. Expiry of a key is not modelled (session keys live 24 hours).
pub mod Keys
pub mod KeySpace
use lalo_lao_alo.Base.{ℕ, suc, Bool, true, false, List, [], Option, none, some, if◌then◌else◌}
use lalo_lao_alo.Common.{
  UserId, CallId, Time, CallType, EndReason, Error, redis_failure, Result, ok, err,
}
use lalo_lao_alo.CallState.{CallState, unset}
use lalo_lao_alo.Session.{Session, unset_path}

-- The bytes of a session description.
abbrev pub Sdp : Type 0
Sdp = List ℕ

pub record CallSession : Type 0 where
  pub call_id : CallId
  pub caller_id : UserId
  pub callee_id : UserId
  pub call_type : CallType
  pub state : CallState
  pub sdp_offer : Sdp
  pub sdp_answer : Sdp
  pub started_at : Time
  pub answered_at : Time
  pub ended_at : Time
  pub end_reason : EndReason

pub data Stored : Type 0 where
  call : CallSession → Stored
  room : Session → Stored

-- `json.Unmarshal` into the one type of what was marshalled from either: a field is read by its
-- JSON name (`call_id`, `call_type`, `ended_at` and `end_reason` are common), and one that is not
-- there keeps its zero value.
unfoldable pub as_call : Stored → CallSession
as_call (call s) = s
as_call (room s) = record {
  call_id = s.call_id;
  caller_id = 0;
  callee_id = 0;
  call_type = s.call_type;
  state = unset;
  sdp_offer = [];
  sdp_answer = [];
  started_at = 0;
  answered_at = 0;
  ended_at = s.ended_at;
  end_reason = s.end_reason;
}

unfoldable pub as_room : Stored → Session
as_room (room s) = s
as_room (call s) = record {
  call_id = s.call_id;
  call_type = s.call_type;
  topology = unset_path;
  initiator_id = 0;
  region = 0;
  has_video = false;
  participants = [];
  created_at = 0;
  ended_at = s.ended_at;
  end_reason = s.end_reason;
}

pub record Redis : Type 0 where
  pub sessions : CallId → Option Stored
  pub call_of : UserId → Option CallId
  pub active_call : UserId → Option CallId
  pub participants : CallId → UserId → Bool
  pub seen : ℕ → Bool
  pub counters : ℕ → ℕ
  pub commands : ℕ
  pub fails : ℕ → Bool
  pub conflicts : ℕ → Bool

-- Code that talks to Redis: the new database, and a value or an error. An error keeps what was
-- written before it.
abbrev pub M : Type 0 → Type 0
M A = Redis → Redis × Result A

abbrev pub pure : {A : Type 0} → A → M A
pure a r = (r, ok a)

abbrev pub fail : {A : Type 0} → Error → M A
fail e r = (r, err e)

abbrev pub and_then : {A B : Type 0} → Redis × Result A → (A → M B) → Redis × Result B
and_then (r, ok a) f = f a r
and_then (r, err e) f = (r, err e)

infixl 5 ◌>>=◌ ◌>>◌
abbrev pub ◌>>=◌ : {A B : Type 0} → M A → (A → M B) → M B
◌>>=◌ m f r = and_then (m r) f

abbrev pub ◌>>◌ : {B : Type 0} → M (Unit {0}) → M B → M B
m >> k = m >>= λ _. k

abbrev pub guard : Bool → Error → M (Unit {0})
guard true e = pure tt
guard false e = fail e

abbrev pub require {ℓ} : {A : Type ℓ} → Option A → Error → Redis → Redis × Result A
require none e r = (r, err e)
require (some a) e r = (r, ok a)

abbrev pub wrapping : {A : Type 0} → (Error → Error) → Redis × Result A → Redis × Result A
wrapping f (r, ok a) = (r, ok a)
wrapping f (r, err e) = (r, err (f e))

-- One command that writes: its effect, or a failure without it.
unfoldable pub exec : (Redis → Redis) → M (Unit {0})
exec write r =
    let r' = record r { commands = suc r.commands } in
    if r.fails r.commands then (r', err redis_failure) else (write r', ok tt)

-- One command that reads.
unfoldable pub query : {A : Type 0} → (Redis → A) → M A
query read r =
    let r' = record r { commands = suc r.commands } in
    (r', if r.fails r.commands then err redis_failure else ok (read r))

-- EXEC of a transaction over watched keys; `lost` is the error where one of them was written.
unfoldable pub exec_watched : Error → (Redis → Redis) → M (Unit {0})
exec_watched lost write r =
    let r' = record r { commands = suc r.commands } in
    if r.fails r.commands
    then (r', err redis_failure)
    else (if r.conflicts r.commands then (r', err lost) else (write r', ok tt))
