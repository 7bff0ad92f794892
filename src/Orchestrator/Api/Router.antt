-- ===== src/Orchestrator/Api/Router.antt =====
-- `ServeHTTP` of internal/session/handler.go.
use lalo_lao_alo.Base.{Bool, true, false, ◌&&◌, if◌then◌else◌}
use lalo_lao_alo.Text.{text, text_eq}
use lalo_lao_alo.Orchestrator.Api.{
  Method, get, post, patch, Request, Outside, Handler, say, reply, complaint, not_found,
}
use lalo_lao_alo.Orchestrator.Api.Paths.{match_path, match_prefix}
use lalo_lao_alo.Orchestrator.Api.Sessions
use lalo_lao_alo.Orchestrator.Api.Sessions.{sessions_prefix}
use lalo_lao_alo.Orchestrator.Api.Groups
use lalo_lao_alo.Orchestrator.Api.Groups.{rooms_prefix}

abbrev pub is_get : Method → Bool
is_get get = true
is_get _ = false

abbrev pub is_post : Method → Bool
is_post post = true
is_post _ = false

abbrev pub is_patch : Method → Bool
is_patch patch = true
is_patch _ = false

unfoldable pub serve_rooms : Outside → Request → Handler
serve_rooms o r =
    if text_eq r.path (text "/api/v1/rooms") && is_post r.method
    then Groups.handle_create_room o r
    else if match_path r.path rooms_prefix (text "/invite") && is_post r.method
    then Groups.handle_invite_to_room o r
    else if match_path r.path rooms_prefix (text "/join") && is_post r.method
    then Groups.handle_join_room o r
    else if match_path r.path rooms_prefix (text "/leave") && is_post r.method
    then Groups.handle_leave_room o r
    else if match_path r.path rooms_prefix (text "/end") && is_post r.method
    then Groups.handle_end_room o r
    else if match_path r.path rooms_prefix (text "/participants") && is_get r.method
    then Groups.handle_get_room_participants o r
    else if match_prefix r.path rooms_prefix && is_get r.method
    then Sessions.handle_get_session o r
    else say (reply 404 (complaint not_found))

-- The cases of the `switch` in their order; the second half is `serve_rooms`.
unfoldable pub serve : Outside → Request → Handler
unfolding serve_rooms
serve o r =
    if text_eq r.path (text "/api/v1/sessions") && is_post r.method
    then Sessions.handle_create_session o r
    else if text_eq r.path (text "/api/v1/sessions") && is_get r.method
    then Sessions.handle_list_sessions
    else if match_path r.path sessions_prefix (text "/join") && is_post r.method
    then Sessions.handle_join_session o r
    else if match_path r.path sessions_prefix (text "/leave") && is_post r.method
    then Sessions.handle_leave_session o r
    else if match_path r.path sessions_prefix (text "/end") && is_post r.method
    then Sessions.handle_end_session o r
    else if match_path r.path sessions_prefix (text "/media") && is_patch r.method
    then Sessions.handle_update_media o r
    else if match_path r.path sessions_prefix (text "/turn-credentials") && is_get r.method
    then Sessions.handle_get_turn_credentials r
    else if match_prefix r.path sessions_prefix && is_get r.method
    then Sessions.handle_get_session o r
    else serve_rooms o r
