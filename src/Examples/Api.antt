-- ===== src/Examples/Api.antt =====
-- The theorems on the REST API of the orchestrator at concrete requests.
use lalo_lao_alo.Base.{ℕ, true, [], ◌++◌, Option, none, some, ◌≡◌, ◌≢◌, ◌↔◌, refl}
use lalo_lao_alo.Common.{ok}
use lalo_lao_alo.CallState.{ringing}
use lalo_lao_alo.Text.{text}
use lalo_lao_alo.Orchestrator.Services.{Services}
use lalo_lao_alo.Orchestrator.Api.{post, Decoded, Request, Outside}
use lalo_lao_alo.Orchestrator.Api.Paths as Paths
use lalo_lao_alo.Orchestrator.Api.Paths.{match_path, extract_segment}
use lalo_lao_alo.Orchestrator.Api.Sessions as Sessions
use lalo_lao_alo.Orchestrator.Api.Groups as Groups
use lalo_lao_alo.Orchestrator.Api.Router.{serve}
use lalo_lao_alo.Orchestrator.Api.Statuses as Statuses
use lalo_lao_alo.Orchestrator.Api.Statuses.{is_refusal}
use lalo_lao_alo.Orchestrator.Api.Conflicts as Conflicts
use lalo_lao_alo.Examples.{services_on, redis_with}

abbrev no_body : Decoded
no_body = record {
  create = none;
  join = some none;
  media = none;
  end = none;
  create_room = none;
  invite = none;
}

abbrev pub outside : Outside
outside = record { now = 20; fresh = 9; resolve = λ u. ok u; number = λ t. 7 }

abbrev pub services : Services
services = services_on (redis_with ringing)

abbrev pub joining : Option ℕ → Request
joining claims = record {
  method = post;
  path = text "/api/v1/sessions/s7/join";
  claims = claims;
  body = no_body;
}

segment_iff_example :
    ((match_path (text "/r/s7/join") (text "/r/") (text "/join") ≡ true)
      × (extract_segment (text "/r/s7/join") (text "/r/") (text "/join") ≡ text "s7"))
    ↔ ((text "s7" ≢ []) × (text "/r/s7/join" ≡ text "/r/" ++ (text "s7" ++ text "/join")))
segment_iff_example = Paths.segment_iff (text "/r/s7/join") (text "/r/") (text "s7") (text "/join")

stranger_changes_nothing_example :
    ((serve outside (joining none) services).0 ≡ services)
    × (is_refusal (serve outside (joining none) services).1.body ≡ true)
stranger_changes_nothing_example =
    Statuses.stranger_changes_nothing outside (joining none) services refl

no_conflict_example :
    ((serve outside (joining (some 1)) services).1.status ≢ 409)
    × ((Sessions.handle_join_session outside (joining (some 1)) services).1.status ≢ 403)
    × ((Groups.handle_join_room outside (joining (some 1)) services).1.status ≢ 403)
no_conflict_example = Conflicts.no_conflict outside (joining (some 1)) services
