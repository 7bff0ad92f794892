-- ===== src/Orchestrator/Api/Statuses.antt =====
-- What a request without claims gets from the REST API of internal/session/handler.go.
use lalo_lao_alo.Base.{Bool, true, false, Option, none, some, ◌≡◌, refl}
use lalo_lao_alo.Common.{UserId}
use lalo_lao_alo.Orchestrator.Services.{Services}
use lalo_lao_alo.Orchestrator.Api.{
  Request, Outside, Reply, Body, Handler, say, if_known, complaint, unauthorized, not_found,
  no_sessions,
}
use lalo_lao_alo.Orchestrator.Api.Sessions
use lalo_lao_alo.Orchestrator.Api.Groups
use lalo_lao_alo.Orchestrator.Api.Router.{serve}
use lalo_lao_alo.Orchestrator.Api.Routes.{Meets, meets, met, serve_rooms-Meets, serve-Meets}

abbrev pub is_refusal : Body → Bool
is_refusal (complaint unauthorized) = true
is_refusal (complaint not_found) = true
is_refusal no_sessions = true
is_refusal _ = false

abbrev Refuses : Services → Services × Reply → Type 0
Refuses w x = (x.0 ≡ w) × (is_refusal x.1.body ≡ true)

if_known-Refuses :
    (claims : Option UserId) (f : UserId → Handler)
    → claims ≡ none
    → Meets Refuses (if_known claims f)
if_known-Refuses none f e = meets (λ w. (refl, refl))
if_known-Refuses (some u) f e = cc

say-Refuses : (rep : Reply) → is_refusal rep.body ≡ true → Meets Refuses (say rep)
say-Refuses rep e = meets (λ w. (refl, e))

-- A request without claims changes nothing, whatever its method, path and body, and is answered by
-- "unauthorized", by "not found", or by the empty list of calls.
pub stranger_changes_nothing :
    (o : Outside) (r : Request) (w : Services)
    → r.claims ≡ none
    → ((serve o r w).0 ≡ w) × (is_refusal (serve o r w).1.body ≡ true)
unfolding Sessions.handle_create_session Sessions.handle_list_sessions Sessions.handle_join_session
    Sessions.handle_leave_session Sessions.handle_end_session Sessions.handle_update_media
    Sessions.handle_get_turn_credentials Sessions.handle_get_session Groups.handle_create_room
    Groups.handle_invite_to_room Groups.handle_join_room Groups.handle_leave_room
    Groups.handle_end_room Groups.handle_get_room_participants
stranger_changes_nothing o r w e = met served w
  where
    shut : (f : UserId → Handler) → Meets Refuses (if_known r.claims f)
    shut f = if_known-Refuses r.claims f e

    served : Meets Refuses (serve o r)
    served =
        serve-Meets Refuses o r (shut _) (say-Refuses _ refl) (shut _) (shut _) (shut _) (shut _)
          (shut _) (shut _)
          (serve_rooms-Meets Refuses o r (shut _) (shut _) (shut _) (shut _) (shut _) (shut _)
            (shut _) (say-Refuses _ refl))
