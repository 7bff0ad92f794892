-- ===== src/Signaling/Hub/Rooms.antt =====
-- The handlers of group calls: internal/signaling/hub.go.
use lalo_lao_alo.Base.{
  ℕ, Bool, true, false, not, ◌||◌, List, [], ◌∷◌, Option, none, some, if◌then◌else◌, is_empty,
}
use lalo_lao_alo.Common.{
  UserId, CallId, Time, no_type, is_media_type, host_ended, Error, wrapped, max_participants,
  user_busy, is_zero,
}
use lalo_lao_alo.Orchestrator.Calls.{Resolver, update_media_state}
use lalo_lao_alo.Orchestrator.Rooms as Groups
use lalo_lao_alo.Orchestrator.Rooms.{Invitations}
use lalo_lao_alo.Signaling.Store
use lalo_lao_alo.Signaling.Message.{
  Code, RoomCreate, RoomInvite, MediaChange, room_created, room_invitation, room_closed,
  participant_joined, participant_left, participant_media_changed, hosting, taking_part,
}
use lalo_lao_alo.Signaling.Hub.{
  Hub, Client, Action, skip, ◌⨾◌, asking, requesting, send, send_error,
}
use lalo_lao_alo.Signaling.Hub.Membership.{
  add_to_room, set_room_host, is_room_host, remove_from_room, drop_room, is_in_room,
  get_room_members, tell_each, broadcast_to_room,
}
use lalo_lao_alo.Signaling.Hub.Reconnect.{cancel_room_grace_period}

-- `isMaxParticipantsError`: `==` on the error itself. Its other test compares the whole text with
-- "too many participants", and no error has that text: `too_many` prints its numbers behind it.
unfoldable pub is_max_participants_error : Error → Bool
is_max_participants_error max_participants = true
is_max_participants_error _ = false

-- `isUserBusyError`: `errors.Is`, and the text that a wrapped error ends with.
unfoldable pub is_user_busy_error : Error → Bool
is_user_busy_error user_busy = true
is_user_busy_error (wrapped e) = is_user_busy_error e
is_user_busy_error _ = false

-- The code of the reply to a failed creation or join.
unfoldable pub room_error : Error → Code
unfolding is_max_participants_error is_user_busy_error
room_error e =
    if is_max_participants_error e
    then Code.room_full
    else if is_user_busy_error e
    then Code.busy
    else Code.internal_error

-- An action that reads the hub's state first.
abbrev pub reading : {A : Type 0} → (Hub → A) → (A → Action) → Action
reading read f h = f (read h) h

-- The guard that every handler of a room begins with.
abbrev pub if_group_calls : Client → Action → Action
if_group_calls client f =
    reading (λ h. h.group_calls)
      (λ available. if available then f else send_error client Code.internal_error 0)

-- `key` is the rate limit's key "room_create:<user>"; the limit is 5.
unfoldable pub handle_room_create :
    Resolver → Time → CallId → ℕ → Client → Option RoomCreate → Action
handle_room_create resolve now fresh key client none =
    if_group_calls client (send_error client Code.invalid_message 0)
handle_room_create resolve now fresh key client (some msg) =
    let create =
      requesting
        (Groups.create_group_session resolve now fresh (record {
          initiator_id = client.user_id;
          participants = msg.participants;
          call_type = msg.call_type;
          region = 0;
        }))
        (λ e. send_error client (room_error e) 0)
        (λ room.
          add_to_room room.0 client.user_id
          ⨾ set_room_host room.0 client.user_id
          ⨾ send client (room_created room.0)
          ⨾ tell_each (room_invitation room.0 client.user_id msg.call_type msg.participants)
              msg.participants) in
    if_group_calls client (
      if is_empty msg.participants
      then send_error client Code.invalid_message 0
      else if not (is_media_type msg.call_type)
      then send_error client Code.invalid_message 0
      else asking (Store.check_rate_limit key 5) (λ e. create)
          (λ limited. if limited then send_error client Code.rate_limited 0 else create))

unfoldable pub handle_room_invite : Resolver → Client → Option RoomInvite → Action
handle_room_invite resolve client none =
    if_group_calls client (send_error client Code.invalid_message 0)
handle_room_invite resolve client (some msg) = if_group_calls client (
    if is_zero msg.room_id || is_empty msg.invitees
    then send_error client Code.invalid_message 0
    else reading (is_in_room msg.room_id client.user_id) λ inside.
      if not inside
      then send_error client Code.unauthorized msg.room_id
      else requesting (Groups.invite_to_room resolve msg.room_id client.user_id msg.invitees)
          (λ e. send_error client Code.internal_error msg.room_id)
          (λ answer. reading (get_room_members msg.room_id) λ members.
            tell_each (room_invitation msg.room_id client.user_id no_type members) answer.invited))

unfoldable pub handle_room_join : Time → Client → Option CallId → Action
handle_room_join now client none = if_group_calls client (send_error client Code.invalid_message 0)
handle_room_join now client (some c) = if_group_calls client (
    if is_zero c
    then send_error client Code.invalid_message 0
    else reading (is_in_room c client.user_id) λ inside.
      if inside
      then cancel_room_grace_period client.user_id
        ⨾ requesting (Groups.join_group_session now c client.user_id)
            (λ e. send_error client Code.internal_error c) (λ a. send client (room_created c))
      else requesting (Groups.join_group_session now c client.user_id)
          (λ e. send_error client (room_error e) c)
          (λ a.
            add_to_room c client.user_id
            ⨾ send client (room_created c)
            ⨾ broadcast_to_room c client.user_id (participant_joined c client.user_id taking_part)))

-- The transfer to the first remaining member, where the host has left.
abbrev pub pass_host : Bool → CallId → List UserId → Action
pass_host true c (u ∷ us) =
    requesting (Groups.transfer_host c u) (λ e. skip)
      (λ _. broadcast_to_room c 0 (participant_joined c u hosting))
pass_host true c [] = skip
pass_host false c us = skip

unfoldable pub handle_room_leave : Time → Client → Option CallId → Action
handle_room_leave now client none = if_group_calls client (send_error client Code.invalid_message 0)
handle_room_leave now client (some c) = if_group_calls client (
    if is_zero c
    then send_error client Code.invalid_message 0
    else reading (is_in_room c client.user_id) λ inside.
      if not inside
      then send_error client Code.not_found c
      else reading (is_room_host c client.user_id) λ was_host.
        requesting (Groups.leave_group_session now c client.user_id) (λ e. skip) (λ _. skip)
        ⨾ remove_from_room c client.user_id
        ⨾ reading (get_room_members c) λ members.
          pass_host was_host c members
          ⨾ broadcast_to_room c 0 (participant_left c client.user_id)
          ⨾ (if is_empty members then drop_room c else skip))

unfoldable pub handle_room_end_all : Time → Client → Option CallId → Action
handle_room_end_all now client none =
    if_group_calls client (send_error client Code.invalid_message 0)
handle_room_end_all now client (some c) = if_group_calls client (
    if is_zero c
    then send_error client Code.invalid_message 0
    else reading (is_in_room c client.user_id) λ inside.
      if not inside
      then send_error client Code.not_found c
      else reading (is_room_host c client.user_id) λ is_host.
        if not is_host
        then send_error client Code.unauthorized c
        else reading (get_room_members c) λ members.
          requesting (Groups.close_room now c host_ended)
            (λ e. send_error client Code.internal_error c)
            (λ _. tell_each (room_closed c host_ended) members ⨾ drop_room c))

unfoldable pub handle_media_change : Client → Option MediaChange → Action
handle_media_change client none = if_group_calls client (send_error client Code.invalid_message 0)
handle_media_change client (some msg) = if_group_calls client (
    if is_zero msg.room_id
    then send_error client Code.invalid_message 0
    else reading (is_in_room msg.room_id client.user_id) λ inside.
      if not inside
      then send_error client Code.not_found msg.room_id
      else requesting
          (update_media_state msg.room_id client.user_id (record {
            audio_enabled = msg.audio;
            video_enabled = msg.video;
            screen_sharing = false;
          }))
          (λ e. skip) (λ _. skip)
        ⨾ broadcast_to_room msg.room_id client.user_id
            (participant_media_changed msg.room_id client.user_id msg.audio msg.video))
