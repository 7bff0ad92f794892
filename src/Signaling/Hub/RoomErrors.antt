-- ===== src/Signaling/Hub/RoomErrors.antt =====
-- What a user is told who cannot join a room: `handleRoomJoin` of internal/signaling/hub.go over
-- the orchestrator's errors.
use lalo_lao_alo.Base.{◌≤◌, true, false, [], ◌∷◌, ◌++◌, none, some, length, ◌≡◌, ◌≢◌, arith}
use lalo_lao_alo.Common.{CallId, Time, group}
use lalo_lao_alo.Redis.{room}
use lalo_lao_alo.Session.{Session, Participant, active_participants, find_participant}
use lalo_lao_alo.Orchestrator.Store
use lalo_lao_alo.Orchestrator.Services.{room_limit}
use lalo_lao_alo.Orchestrator.Rooms.{join_group_session}
use lalo_lao_alo.Orchestrator.Rooms.Laws.{Answers, full_room_refused}
use lalo_lao_alo.Signaling.Message.{Code, error}
use lalo_lao_alo.Signaling.Hub.{Hub, Client, requesting, send, send_error}
use lalo_lao_alo.Signaling.Hub.Membership.{is_in_room}
use lalo_lao_alo.Signaling.Hub.Reconnect.{cancel_room_grace_period}
use lalo_lao_alo.Signaling.Hub.Rooms.{room_error, handle_room_join}

module _ (now : Time) (client : Client) (c : CallId) (h : Hub) (s : Session)
    (available : h.group_calls ≡ true) (named : c ≢ 0) (well : Answers h.rdb)
    (stored : h.rdb.sessions c ≡ some (room s)) (kind : s.call_type ≡ group) where
  -- A client asks to join a stored group call with a non-empty identifier, the orchestrator is
  -- configured and Redis answers every command. Where the client is not in the hub's room and not
  -- listed in the session, and the session has as many active participants as the limit or more,
  -- the one message sent is the error `internal_error` to the client.
  full_room_reported_internal :
      is_in_room c client.user_id h ≡ false
      → find_participant s.participants client.user_id ≡ none
      → room_limit h.services ≤ length (active_participants s.participants)
      → (handle_room_join now client (some c) h).outbox
        ≡ h.outbox ++ record { to = client; seq = 0; message = error Code.internal_error c } ∷ []
  unfolding handle_room_join requesting send_error send room_error
  full_room_reported_internal outside absent full =
      ground
        (arith, full_room_refused now c client.user_id h.services s well stored kind absent full)

  -- A client asks to join a stored group call with a non-empty identifier, the orchestrator is
  -- configured and Redis answers every command. Where the client is in the hub's room and the
  -- session lists the user as one who has not left, the one message sent is the error
  -- `internal_error` to the client.
  member_rejoin_fails :
      (p : Participant)
      → is_in_room c client.user_id h ≡ true
      → find_participant s.participants client.user_id ≡ some p
      → p.left_at ≡ 0
      → (handle_room_join now client (some c) h).outbox
        ≡ h.outbox ++ record { to = client; seq = 0; message = error Code.internal_error c } ∷ []
  unfolding handle_room_join requesting send_error send cancel_room_grace_period join_group_session
      Store.get
  member_rejoin_fails p inside found here = ground (arith, well h.rdb.commands)
