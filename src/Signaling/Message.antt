-- ===== src/Signaling/Message.antt =====
-- The messages of internal/signaling/message.go that the hub reads and sends. Human-readable texts beside an error code are left out.
use lalo_lao_alo.Base.{
  ℕ, Bool, List, ◌∷◌, [], false, true, ◌&&◌, ◌||◌, ◌==◌, length, if◌then◌else◌, ltb,
}
use lalo_lao_alo.Common.{UserId, CallId, DeviceId, CallType, EndReason}
use lalo_lao_alo.CallState.{CallState}
use lalo_lao_alo.Redis.{Sdp}

pub data Code : Type 0 where
  invalid_message unauthorized not_found busy rate_limited internal_error invalid_state : Code
  room_full glare was_cancelled duplicate invalid_sdp : Code

pub record CallInitiate : Type 0 where
  pub callee_id : UserId
  pub sdp_offer : Sdp
  pub call_type : CallType

pub record CallAccept : Type 0 where
  pub call_id : CallId
  pub sdp_answer : Sdp

pub record CallReject : Type 0 where
  pub call_id : CallId
  pub reason : EndReason

pub record IceCandidate : Type 0 where
  pub call_id : CallId
  pub candidate : ℕ

pub record RoomCreate : Type 0 where
  pub participants : List UserId
  pub call_type : CallType

pub record RoomInvite : Type 0 where
  pub room_id : CallId
  pub invitees : List UserId

pub record MediaChange : Type 0 where
  pub room_id : CallId
  pub audio : Bool
  pub video : Bool

-- The roles of `StateSyncCall` and `ParticipantJoinedMsg`.
pub data Seat : Type 0 where
  calling called hosting taking_part : Seat

-- Server to client.
pub data Message : Type 0 where
  error : Code → CallId → Message
  pong : Message
  incoming_call : CallId → UserId → Sdp → CallType → Message
  call_accepted : CallId → Sdp → Message
  call_rejected : CallId → EndReason → Message
  call_ended : CallId → EndReason → Message
  call_cancelled : CallId → Message
  ice_candidate : IceCandidate → Message
  session_resumed : CallId → CallState → UserId → Message
  peer_reconnecting : CallId → UserId → Message
  peer_reconnected : CallId → UserId → Message
  call_glare : CallId → CallId → UserId → Message
  call_accepted_elsewhere : CallId → DeviceId → Message
  state_sync : CallId → UserId → CallType → CallState → Seat → Message
  room_created : CallId → Message
  room_invitation : CallId → UserId → CallType → List UserId → Message
  room_closed : CallId → EndReason → Message
  participant_joined : CallId → UserId → Seat → Message
  participant_left : CallId → UserId → Message
  participant_media_changed : CallId → UserId → Bool → Bool → Message

starts_with : List ℕ → List ℕ → Bool
starts_with [] text = true
starts_with (p ∷ ps) [] = false
starts_with (p ∷ ps) (c ∷ cs) = p == c && starts_with ps cs

-- `strings.Contains` over bytes.
has_part : List ℕ → List ℕ → Bool
unfolding starts_with
has_part part [] = starts_with part []
has_part part (c ∷ cs) = starts_with part (c ∷ cs) || has_part part cs

abbrev version_line : List ℕ
version_line = b'v' ∷ b'=' ∷ b'0' ∷ []

abbrev origin_line : List ℕ
origin_line = b'o' ∷ b'=' ∷ []

-- `isValidSDP` of internal/signaling/hub.go.
unfoldable pub is_valid_sdp : Sdp → Bool
unfolding has_part
is_valid_sdp sdp =
    if ltb (length sdp) 10 || ltb 65536 (length sdp)
    then false
    else has_part version_line sdp && has_part origin_line sdp
