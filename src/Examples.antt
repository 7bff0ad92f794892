-- ===== src/Examples.antt =====
-- Test data: a Redis that always answers, a hub with three users who are connected, calls between
-- them, and a room.
mod Calls
mod Rooms
mod Api
mod Media
mod Tokens
mod Clients
mod Pushes
mod Servers
use lalo_lao_alo.Base.{ℕ, true, false, [], ◌∷◌, List, none, some, if◌then◌else◌, ◌==◌}
use lalo_lao_alo.Common.{UserId, Time, EndReason, audio, group, blank}
use lalo_lao_alo.CallState.{CallState, ringing}
use lalo_lao_alo.Redis.{Redis, CallSession, Sdp}
use lalo_lao_alo.Session.{Session, Participant, Role, sfu}
use lalo_lao_alo.Orchestrator.Services.{Services}
use lalo_lao_alo.Signaling.Store.{put_call}
use lalo_lao_alo.Signaling.Store.Prompt.{Healthy}
use lalo_lao_alo.Orchestrator.Store.{put_room}
use lalo_lao_alo.Signaling.Hub.{Hub, Client}
use mathlib.Core.Path.{refl}

abbrev pub empty_redis : Redis
empty_redis = record {
  sessions = λ c. none;
  call_of = λ u. none;
  active_call = λ u. none;
  participants = λ c u. false;
  seen = λ n. false;
  counters = λ n. 0;
  commands = 0;
  fails = λ n. false;
  conflicts = λ n. false;
}

-- A device of a user, numbered as the user is.
abbrev pub phone : UserId → Client
phone u = record { user_id = u; device_id = u; conn = u }

abbrev pub services_on : Redis → Services
services_on r = record { rdb = r; published = []; history = []; max_participants = 2 }

abbrev pub hub_on : Redis → Hub
hub_on r = record {
  services = services_on r;
  clients = λ u. if u == 0 then [] else phone u ∷ [];
  seq_counters = λ u. 0;
  grace = λ u. none;
  timers = λ n. none;
  next_timer = 0;
  ice_buf = λ c. [];
  outbox = [];
  rooms = (70, 1 ∷ 2 ∷ []) ∷ [];
  hosts = λ c. 1;
  group_calls = true;
  room_grace = λ u. none;
  room_timers = λ n. none;
}

-- A session description with both lines that the hub looks for.
abbrev pub offer : Sdp
offer =
    b'v' ∷ b'=' ∷ b'0' ∷ b'\n' ∷ b'o' ∷ b'=' ∷ b'-' ∷ b' ' ∷ b'1' ∷ b'\n' ∷ b's' ∷ b'=' ∷ b'-' ∷ []

-- The call 7 of user 1 to user 2.
abbrev pub call_in : CallState → CallSession
call_in state = record {
  call_id = 7;
  caller_id = 1;
  callee_id = 2;
  call_type = audio;
  state = state;
  sdp_offer = offer;
  sdp_answer = [];
  started_at = 10;
  answered_at = 0;
  ended_at = 0;
  end_reason = blank;
}

abbrev pub redis_with : CallState → Redis
redis_with state = put_call (call_in state) empty_redis

abbrev pub hub_with : CallState → Hub
hub_with state = hub_on (redis_with state)

pub redis_with-Healthy : (state : CallState) → Healthy (redis_with state)
redis_with-Healthy state = record { answers = λ n. refl; wins = λ n. refl }

abbrev pub member : UserId → Role → Time → Participant
member u role left = record {
  user_id = u;
  role = role;
  media_state = record { audio_enabled = true; video_enabled = false; screen_sharing = false };
  joined_at = 10;
  left_at = left;
}

-- The room 70 with the given participants.
abbrev pub room_of : List Participant → Session
room_of ps = record {
  call_id = 70;
  call_type = group;
  topology = sfu;
  initiator_id = 1;
  region = 0;
  has_video = false;
  participants = ps;
  created_at = 10;
  ended_at = 0;
  end_reason = blank;
}

abbrev pub redis_of : List Participant → Redis
redis_of ps = put_room (room_of ps) empty_redis
