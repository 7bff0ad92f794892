-- ===== src/Orchestrator/Api/Groups.antt =====
-- The handlers of group calls: internal/session/handler.go.
use lalo_lao_alo.Base.{ℕ, ◌||◌, List, Option, none, some, is_empty, if◌then◌else◌}
use lalo_lao_alo.Common.{
  UserId, CallId, is_no_type, Error, session_not_found, max_participants, not_host,
}
use lalo_lao_alo.Text.{Text, text}
use lalo_lao_alo.Orchestrator.Rooms
use lalo_lao_alo.Orchestrator.Api.{
  Request, Outside, Reply, reply, Handler, say, asking, if_known, CreateRoomBody, complaint,
  error_text, done, joined, room_created, invitations, participants_view, invalid_body,
  fields_required, not_found, internal_error,
}
use lalo_lao_alo.Orchestrator.Api.Sessions.{create_failed, failed, with_segment}

abbrev pub rooms_prefix : Text
rooms_prefix = text "/api/v1/rooms/"

abbrev pub create_with : Outside → UserId → Option CreateRoomBody → Handler
create_with o u none = say (reply 400 (complaint invalid_body))
create_with o u (some body) =
    if is_empty body.participants || is_no_type body.call_type
    then say (reply 400 (complaint fields_required))
    else asking
        (Rooms.create_group_session o.resolve o.now o.fresh (record {
          initiator_id = u;
          participants = body.participants;
          call_type = body.call_type;
          region = 0;
        }))
        create_failed (λ made. reply 201 (room_created made))

unfoldable pub handle_create_room : Outside → Request → Handler
handle_create_room o r = if_known r.claims (λ u. create_with o u r.body.create_room)

abbrev pub invite_with : Outside → CallId → UserId → Option (List UserId) → Handler
invite_with o c u none = say (reply 400 (complaint invalid_body))
invite_with o c u (some invitees) =
    if is_empty invitees
    then say (reply 400 (complaint fields_required))
    else asking (Rooms.invite_to_room o.resolve c u invitees) failed
        (λ answer. reply 200 (invitations answer))

unfoldable pub handle_invite_to_room : Outside → Request → Handler
handle_invite_to_room o r = if_known r.claims λ u.
    with_segment rooms_prefix (text "/invite") r λ id. invite_with o (o.number id) u r.body.invite

abbrev pub join_room_status : Error → ℕ
join_room_status max_participants = 403
join_room_status _ = 500

unfoldable pub handle_join_room : Outside → Request → Handler
handle_join_room o r = if_known r.claims λ u. with_segment rooms_prefix (text "/join") r λ id.
    asking (Rooms.join_group_session o.now (o.number id) u)
      (λ e. reply (join_room_status e) (error_text e)) (λ a. reply 200 (joined a))

unfoldable pub handle_leave_room : Outside → Request → Handler
handle_leave_room o r = if_known r.claims λ u.
    with_segment rooms_prefix (text "/leave") r
      λ id. asking (Rooms.leave_group_session o.now (o.number id) u) failed (λ a. reply 200 done)

-- The text "only the host can end the room for all" is `not_host`'s alone.
abbrev pub end_status : Error → ℕ
end_status not_host = 403
end_status _ = 500

unfoldable pub handle_end_room : Outside → Request → Handler
handle_end_room o r = if_known r.claims λ u. with_segment rooms_prefix (text "/end") r λ id.
    asking (Rooms.end_room_for_all o.now (o.number id) u) (λ e. reply (end_status e) (error_text e))
      (λ a. reply 200 done)

abbrev pub list_failed : Error → Reply
list_failed session_not_found = reply 404 (complaint not_found)
list_failed _ = reply 500 (complaint internal_error)

unfoldable pub handle_get_room_participants : Outside → Request → Handler
handle_get_room_participants o r = if_known r.claims λ u.
    with_segment rooms_prefix (text "/participants") r λ id.
      asking (Rooms.get_room_participants (o.number id)) list_failed
        (λ ps. reply 200 (participants_view ps))
