-- ===== src/Orchestrator/Api/Sessions.antt =====
-- The handlers of calls: internal/session/handler.go up to the group calls.
use lalo_lao_alo.Base.{ℕ, Bool, false, ◌||◌, Option, none, some, is_empty, if◌then◌else◌}
use lalo_lao_alo.Common.{
  UserId, CallId, is_no_type, EndReason, blank, user_ended, Error, session_not_found, user_busy,
  already_in_call, max_participants, is_zero,
}
use lalo_lao_alo.Session.{Role, participant, MediaState}
use lalo_lao_alo.Text.{Text, text}
use lalo_lao_alo.Orchestrator.Store
use lalo_lao_alo.Orchestrator.Services.{store}
use lalo_lao_alo.Orchestrator.Calls
use lalo_lao_alo.Orchestrator.Api.{
  Request, Outside, Reply, reply, Handler, say, asking, if_known, CreateBody, UpdateMediaRequest,
  complaint, error_text, done, created, joined, session_view, no_sessions, credentials_for,
  invalid_body, missing_id, fields_required, not_found, internal_error,
}
use lalo_lao_alo.Orchestrator.Api.Paths.{extract_id, extract_segment}

abbrev pub sessions_prefix : Text
sessions_prefix = text "/api/v1/sessions/"

-- The constant region of a call that is created here.
abbrev default_region : ℕ
default_region = 1

-- `err == ErrUserBusy || err == ErrAlreadyInCall`, on the error itself.
abbrev pub conflict_status : Error → ℕ
conflict_status user_busy = 409
conflict_status already_in_call = 409
conflict_status _ = 500

abbrev pub create_failed : Error → Reply
create_failed e = reply (conflict_status e) (error_text e)

abbrev pub create_with : Outside → UserId → Option CreateBody → Handler
create_with o u none = say (reply 400 (complaint invalid_body))
create_with o u (some body) =
    if is_zero body.callee_id || is_no_type body.call_type
    then say (reply 400 (complaint fields_required))
    else asking
        (Calls.create_session o.resolve o.now o.fresh (record {
          caller_id = u;
          callee_id = body.callee_id;
          call_type = body.call_type;
          has_video = body.has_video;
          region = default_region;
        }))
        create_failed (λ made. reply 201 (created made))

unfoldable pub handle_create_session : Outside → Request → Handler
handle_create_session o r = if_known r.claims (λ u. create_with o u r.body.create)

abbrev pub get_failed : Error → Reply
get_failed session_not_found = reply 404 (complaint not_found)
get_failed _ = reply 500 (complaint internal_error)

abbrev pub get_with : Outside → Text → Handler
get_with o id =
    if is_empty id
    then say (reply 400 (complaint missing_id))
    else asking (store (Store.get (o.number id))) get_failed (λ s. reply 200 (session_view s))

-- The prefix is that of the sessions, whichever route has led here.
unfoldable pub handle_get_session : Outside → Request → Handler
unfolding extract_id
handle_get_session o r = if_known r.claims (λ u. get_with o (extract_id r.path sessions_prefix))

unfoldable pub handle_list_sessions : Handler
handle_list_sessions = say (reply 200 no_sessions)

-- The identifier between the sessions' prefix and a suffix, or the reply that it is missing.
abbrev pub with_segment : Text → Text → Request → (Text → Handler) → Handler
with_segment prefix suffix r f =
    let id = extract_segment r.path prefix suffix in
    if is_empty id then say (reply 400 (complaint missing_id)) else f id

abbrev role_of : Option (Option Role) → Role
role_of (some (some role)) = role
role_of _ = participant

abbrev pub join_status : Error → ℕ
join_status session_not_found = 404
join_status user_busy = 409
join_status already_in_call = 409
join_status max_participants = 403
join_status _ = 500

unfoldable pub handle_join_session : Outside → Request → Handler
handle_join_session o r = if_known r.claims λ u. with_segment sessions_prefix (text "/join") r λ id.
    asking
      (Calls.join_session o.now (record {
        call_id = o.number id;
        user_id = u;
        role = role_of r.body.join;
        has_video = false;
      }))
      (λ e. reply (join_status e) (error_text e)) (λ a. reply 200 (joined a))

-- Any error is a 500 with its text.
abbrev pub failed : Error → Reply
failed e = reply 500 (error_text e)

unfoldable pub handle_leave_session : Outside → Request → Handler
handle_leave_session o r = if_known r.claims λ u.
    with_segment sessions_prefix (text "/leave") r
      λ id. asking (Calls.leave_session o.now (o.number id) u) failed (λ a. reply 200 done)

abbrev pub reason_of : Option EndReason → EndReason
reason_of none = user_ended
reason_of (some blank) = user_ended
reason_of (some why) = why

-- The user of the claims is not looked at.
unfoldable pub handle_end_session : Outside → Request → Handler
handle_end_session o r = if_known r.claims λ u. with_segment sessions_prefix (text "/end") r λ id.
    asking (Calls.end_session o.now (o.number id) (reason_of r.body.end)) failed
      (λ a. reply 200 done)

abbrev or_false : Option Bool → Bool
or_false none = false
or_false (some b) = b

-- A field that is absent is false.
abbrev pub media_of : UpdateMediaRequest → MediaState
media_of req = record {
  audio_enabled = or_false req.audio_enabled;
  video_enabled = or_false req.video_enabled;
  screen_sharing = or_false req.screen_sharing;
}

abbrev pub media_with : CallId → UserId → Option UpdateMediaRequest → Handler
media_with c u none = say (reply 400 (complaint invalid_body))
media_with c u (some req) =
    asking (Calls.update_media_state c u (media_of req)) failed (λ a. reply 200 done)

unfoldable pub handle_update_media : Outside → Request → Handler
handle_update_media o r = if_known r.claims λ u.
    with_segment sessions_prefix (text "/media") r λ id. media_with (o.number id) u r.body.media

unfoldable pub handle_get_turn_credentials : Request → Handler
handle_get_turn_credentials r = if_known r.claims (λ u. say (reply 200 (credentials_for u)))
