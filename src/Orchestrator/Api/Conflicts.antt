-- ===== src/Orchestrator/Api/Conflicts.antt =====
-- Which statuses the REST API of internal/session/handler.go cannot send.
use lalo_lao_alo.Orchestrator.Api.Avoids.{
  Avoids, say-Avoids, if_known-Avoids, asking-Avoids, asking-Plain, failed-Avoids,
  with_segment-Avoids,
}
use lalo_lao_alo.Base.{ℕ, List, true, Option, none, some, ◌≡◌, ◌≢◌, arith}
use lalo_lao_alo.Common.{UserId, CallId, Error}
use lalo_lao_alo.Orchestrator.Services.{Services}
use lalo_lao_alo.Orchestrator.Plain.{
  is_plain, Plain-create_session, Plain-join_session, Plain-create_group_session,
  Plain-join_group_session,
}
use lalo_lao_alo.Orchestrator.Api.{
  CreateBody, CreateRoomBody, UpdateMediaRequest, Request, Outside, reply, done, joined, error_text,
  participants_view,
}
use lalo_lao_alo.Orchestrator.Calls
use lalo_lao_alo.Orchestrator.Rooms
use lalo_lao_alo.Orchestrator.Api.Sessions
use lalo_lao_alo.Orchestrator.Api.Groups
use lalo_lao_alo.Orchestrator.Api.Router.{serve, serve_rooms}
use lalo_lao_alo.Orchestrator.Api.Routes.{Meets, met, Meets-if, serve_rooms-Meets, serve-Meets}

create_failed-Avoids : (e : Error) → is_plain e ≡ true → (Sessions.create_failed e).status ≢ 409
create_failed-Avoids e h = ground arith

join_status-Avoids : (e : Error) → is_plain e ≡ true → Sessions.join_status e ≢ 409
join_status-Avoids e h = ground arith

join_status-Avoids_403 : (e : Error) → is_plain e ≡ true → Sessions.join_status e ≢ 403
join_status-Avoids_403 e h = ground arith

join_room_status-Avoids :
    (n : ℕ) (e : Error) → 500 ≢ n → is_plain e ≡ true → Groups.join_room_status e ≢ n
join_room_status-Avoids n e h p = ground arith

create_session-Avoids :
    (o : Outside) (r : Request) → Meets (Avoids 409) (Sessions.handle_create_session o r)
unfolding Sessions.handle_create_session
create_session-Avoids o r =
    if_known-Avoids 409 r.claims _ (omega arith) (λ u. by_body u r.body.create)
  where
    by_body : (u : UserId) (b : Option CreateBody) → Meets (Avoids 409) (Sessions.create_with o u b)
    by_body u none = say-Avoids 409 _ (omega arith)
    by_body u (some b) = Meets-if _ (say-Avoids 409 _ (omega arith)) (
        asking-Plain 409 _ _ _ (Plain-create_session _ _ _ _) create_failed-Avoids
          (λ a. omega arith))

join_session-Avoids :
    (n : ℕ) (o : Outside) (r : Request)
    → 401 ≢ n
    → 400 ≢ n
    → 200 ≢ n
    → ((e : Error) → is_plain e ≡ true → Sessions.join_status e ≢ n)
    → Meets (Avoids n) (Sessions.handle_join_session o r)
unfolding Sessions.handle_join_session
join_session-Avoids n o r a b c k =
    if_known-Avoids n r.claims _ a
      λ u. Meets-if _ (say-Avoids n _ b) (asking-Plain n _ _ _ (Plain-join_session _ _) k (λ x. c))

get_failed-Avoids : (e : Error) → (Sessions.get_failed e).status ≢ 409
get_failed-Avoids e = ground arith

list_failed-Avoids : (e : Error) → (Groups.list_failed e).status ≢ 409
list_failed-Avoids e = ground arith

end_status-Avoids : (e : Error) → Groups.end_status e ≢ 409
end_status-Avoids e = ground arith

get_session-Avoids :
    (o : Outside) (r : Request) → Meets (Avoids 409) (Sessions.handle_get_session o r)
unfolding Sessions.handle_get_session
get_session-Avoids o r = if_known-Avoids 409 r.claims _ (omega arith) λ u.
    Meets-if _ (say-Avoids 409 _ (omega arith))
      (asking-Avoids 409 _ _ _ (λ w e h. get_failed-Avoids e) (λ s. omega arith))

leave_session-Avoids :
    (o : Outside) (r : Request) → Meets (Avoids 409) (Sessions.handle_leave_session o r)
unfolding Sessions.handle_leave_session
leave_session-Avoids o r = if_known-Avoids 409 r.claims _ (omega arith) λ u.
    with_segment-Avoids 409 _ _ r _ (omega arith) λ t.
      failed-Avoids 409 (Calls.leave_session o.now (o.number t) u) (λ a. reply 200 done)
        (omega arith) (λ a. omega arith)

end_session-Avoids :
    (o : Outside) (r : Request) → Meets (Avoids 409) (Sessions.handle_end_session o r)
unfolding Sessions.handle_end_session
end_session-Avoids o r = if_known-Avoids 409 r.claims _ (omega arith) λ u.
    with_segment-Avoids 409 _ _ r _ (omega arith) λ t.
      failed-Avoids 409 (Calls.end_session o.now (o.number t) (Sessions.reason_of r.body.end))
        (λ a. reply 200 done) (omega arith) (λ a. omega arith)

update_media-Avoids :
    (o : Outside) (r : Request) → Meets (Avoids 409) (Sessions.handle_update_media o r)
unfolding Sessions.handle_update_media
update_media-Avoids o r =
    if_known-Avoids 409 r.claims _ (omega arith)
      λ u. with_segment-Avoids 409 _ _ r _ (omega arith) λ t. by_body (o.number t) u r.body.media
  where
    by_body :
        (c : CallId) (u : UserId) (b : Option UpdateMediaRequest)
        → Meets (Avoids 409) (Sessions.media_with c u b)
    by_body c u none = say-Avoids 409 _ (omega arith)
    by_body c u (some b) = failed-Avoids 409 _ _ (omega arith) (λ a. omega arith)

turn_credentials-Avoids :
    (r : Request) → Meets (Avoids 409) (Sessions.handle_get_turn_credentials r)
unfolding Sessions.handle_get_turn_credentials
turn_credentials-Avoids r =
    if_known-Avoids 409 r.claims _ (omega arith) (λ u. say-Avoids 409 _ (omega arith))

list_sessions-Avoids : Meets (Avoids 409) Sessions.handle_list_sessions
unfolding Sessions.handle_list_sessions
list_sessions-Avoids = say-Avoids 409 _ (omega arith)

create_room-Avoids :
    (o : Outside) (r : Request) → Meets (Avoids 409) (Groups.handle_create_room o r)
unfolding Groups.handle_create_room
create_room-Avoids o r =
    if_known-Avoids 409 r.claims _ (omega arith) (λ u. by_body u r.body.create_room)
  where
    by_body :
        (u : UserId) (b : Option CreateRoomBody) → Meets (Avoids 409) (Groups.create_with o u b)
    by_body u none = say-Avoids 409 _ (omega arith)
    by_body u (some b) = Meets-if _ (say-Avoids 409 _ (omega arith)) (
        asking-Plain 409 _ _ _ (Plain-create_group_session _ _ _ _) create_failed-Avoids
          (λ a. omega arith))

invite_to_room-Avoids :
    (o : Outside) (r : Request) → Meets (Avoids 409) (Groups.handle_invite_to_room o r)
unfolding Groups.handle_invite_to_room
invite_to_room-Avoids o r =
    if_known-Avoids 409 r.claims _ (omega arith)
      λ u. with_segment-Avoids 409 _ _ r _ (omega arith) λ t. by_body (o.number t) u r.body.invite
  where
    by_body :
        (c : CallId) (u : UserId) (b : Option (List UserId))
        → Meets (Avoids 409) (Groups.invite_with o c u b)
    by_body c u none = say-Avoids 409 _ (omega arith)
    by_body c u (some b) =
        Meets-if _ (say-Avoids 409 _ (omega arith))
          (failed-Avoids 409 _ _ (omega arith) (λ a. omega arith))

join_room-Avoids :
    (n : ℕ) (o : Outside) (r : Request)
    → 401 ≢ n
    → 400 ≢ n
    → 200 ≢ n
    → 500 ≢ n
    → Meets (Avoids n) (Groups.handle_join_room o r)
unfolding Groups.handle_join_room
join_room-Avoids n o r a b c d = if_known-Avoids n r.claims _ a λ u.
    with_segment-Avoids n _ _ r _ b λ t.
      asking-Plain n (Rooms.join_group_session o.now (o.number t) u)
        (λ e. reply (Groups.join_room_status e) (error_text e)) (λ x. reply 200 (joined x))
        (Plain-join_group_session o.now (o.number t) u) (λ e. join_room_status-Avoids n e d)
        (λ x. c)

leave_room-Avoids : (o : Outside) (r : Request) → Meets (Avoids 409) (Groups.handle_leave_room o r)
unfolding Groups.handle_leave_room
leave_room-Avoids o r = if_known-Avoids 409 r.claims _ (omega arith) λ u.
    with_segment-Avoids 409 _ _ r _ (omega arith) λ t.
      failed-Avoids 409 (Rooms.leave_group_session o.now (o.number t) u) (λ a. reply 200 done)
        (omega arith) (λ a. omega arith)

end_room-Avoids : (o : Outside) (r : Request) → Meets (Avoids 409) (Groups.handle_end_room o r)
unfolding Groups.handle_end_room
end_room-Avoids o r = if_known-Avoids 409 r.claims _ (omega arith) λ u.
    with_segment-Avoids 409 _ _ r _ (omega arith) λ t.
      asking-Avoids 409 (Rooms.end_room_for_all o.now (o.number t) u)
        (λ e. reply (Groups.end_status e) (error_text e)) (λ a. reply 200 done)
        (λ w e h. end_status-Avoids e) (λ a. omega arith)

room_participants-Avoids :
    (o : Outside) (r : Request) → Meets (Avoids 409) (Groups.handle_get_room_participants o r)
unfolding Groups.handle_get_room_participants
room_participants-Avoids o r = if_known-Avoids 409 r.claims _ (omega arith) λ u.
    with_segment-Avoids 409 _ _ r _ (omega arith) λ t.
      asking-Avoids 409 (Rooms.get_room_participants (o.number t)) Groups.list_failed
        (λ ps. reply 200 (participants_view ps)) (λ w e h. list_failed-Avoids e) (λ a. omega arith)

-- No request is ever answered by 409, and no request to join a call or a room by 403, although the
-- code has both statuses for these errors: the operations wrap the errors, and the handlers compare
-- them by `==`.
pub no_conflict :
    (o : Outside) (r : Request) (w : Services)
    → ((serve o r w).1.status ≢ 409)
      × ((Sessions.handle_join_session o r w).1.status ≢ 403)
      × ((Groups.handle_join_room o r w).1.status ≢ 403)
no_conflict o r w = (
  met served w,
  met (join_session-Avoids 403 o r (omega arith) (omega arith) (omega arith) join_status-Avoids_403)
      w,
  met (join_room-Avoids 403 o r (omega arith) (omega arith) (omega arith) (omega arith)) w,
)
  where
    rooms : Meets (Avoids 409) (serve_rooms o r)
    rooms =
        serve_rooms-Meets (Avoids 409) o r (get_session-Avoids o r) (create_room-Avoids o r)
          (invite_to_room-Avoids o r)
          (join_room-Avoids 409 o r (omega arith) (omega arith) (omega arith) (omega arith))
          (leave_room-Avoids o r) (end_room-Avoids o r) (room_participants-Avoids o r)
          (say-Avoids 409 _ (omega arith))

    served : Meets (Avoids 409) (serve o r)
    served =
        serve-Meets (Avoids 409) o r (create_session-Avoids o r) list_sessions-Avoids
          (join_session-Avoids 409 o r (omega arith) (omega arith) (omega arith) join_status-Avoids)
          (leave_session-Avoids o r) (end_session-Avoids o r) (update_media-Avoids o r)
          (turn_credentials-Avoids r) (get_session-Avoids o r) rooms
