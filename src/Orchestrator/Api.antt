-- ===== src/Orchestrator/Api.antt =====
-- The REST API of the orchestrator: internal/session/handler.go. This file has the requests and
-- replies and the way a handler answers; the handlers and the dispatch are in the children.
pub mod Paths
pub mod Sessions
pub mod Groups
pub mod Router
pub mod Routes
pub mod Statuses
pub mod Avoids
pub mod Conflicts
pub mod RoomRead
use lalo_lao_alo.Base.{Bool, List, Option, none, some, ℕ}
use lalo_lao_alo.Common.{UserId, CallId, Time, CallType, EndReason, Error, Result, ok, err}
use lalo_lao_alo.Session.{Session, Participant, Role}
use lalo_lao_alo.Orchestrator.Services.{Services, O}
use lalo_lao_alo.Orchestrator.Calls.{Resolver, Access}
use lalo_lao_alo.Orchestrator.Rooms.{Invitations}
use lalo_lao_alo.Text.{Text}

pub data Method : Type 0 where
  get post patch other_method : Method

pub record CreateBody : Type 0 where
  pub callee_id : UserId
  pub call_type : CallType
  pub has_video : Bool

-- A field that is absent, or null, is `none`.
pub record UpdateMediaRequest : Type 0 where
  pub audio_enabled : Option Bool
  pub video_enabled : Option Bool
  pub screen_sharing : Option Bool

pub record CreateRoomBody : Type 0 where
  pub participants : List UserId
  pub call_type : CallType

-- What the JSON decoder makes of the body for each type that a handler may ask for; the outer
-- `none` is an error of the decoder. A role or a reason that is the empty text is the inner `none`
-- or `blank`.
pub record Decoded : Type 0 where
  pub create : Option CreateBody
  pub join : Option (Option Role)
  pub media : Option UpdateMediaRequest
  pub end : Option EndReason
  pub create_room : Option CreateRoomBody
  pub invite : Option (List UserId)

-- `claims` is the user that the middleware has put into the context.
pub record Request : Type 0 where
  pub method : Method
  pub path : Text
  pub claims : Option UserId
  pub body : Decoded

-- The texts of the field "error" that the handlers write themselves.
pub data Complaint : Type 0 where
  unauthorized invalid_body missing_id fields_required not_found internal_error : Complaint

pub data Body : Type 0 where
  complaint : Complaint → Body
  error_text : Error → Body
  done : Body
  created : CallId × Access → Body
  joined : Access → Body
  session_view : Session → Body
  no_sessions : Body
  credentials_for : UserId → Body
  room_created : CallId × List UserId → Body
  invitations : Invitations → Body
  participants_view : List Participant → Body

pub record Reply : Type 0 where
  pub status : ℕ
  pub body : Body

abbrev pub reply : ℕ → Body → Reply
reply n b = record { status = n; body = b }

-- What the outside decides while a request is handled: the clock, a fresh identifier, the lookup of
-- identities, and the number that stands for a text that is an identifier.
pub record Outside : Type 0 where
  pub now : Time
  pub fresh : CallId
  pub resolve : Resolver
  pub number : Text → CallId

abbrev pub Handler : Type 0
Handler = Services → Services × Reply

abbrev pub say : Reply → Handler
say r w = (w, r)

abbrev pub answered :
    {A : Type 0} → Services × Result A → (Error → Reply) → (A → Reply) → Services × Reply
answered (w, ok a) bad good = (w, good a)
answered (w, err e) bad good = (w, bad e)

-- A call of the orchestrator, and the reply to its result.
unfoldable pub asking : {A : Type 0} → O A → (Error → Reply) → (A → Reply) → Handler
asking m bad good w = answered (m w) bad good

-- `auth.ClaimsFromContext`.
abbrev pub if_known : Option UserId → (UserId → Handler) → Handler
if_known none f = say (reply 401 (complaint unauthorized))
if_known (some u) f = f u
