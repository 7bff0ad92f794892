-- ===== src/Orchestrator/Api/Routes.antt =====
-- A relation between the services and the answer, carried through the dispatch of
-- internal/session/handler.go.
use lalo_lao_alo.Base.{Bool, true, false, if◌then◌else◌}
use lalo_lao_alo.Orchestrator.Services.{Services}
use lalo_lao_alo.Orchestrator.Api.{Request, Outside, Reply, Handler, say, complaint, not_found}
use lalo_lao_alo.Orchestrator.Api.Sessions
use lalo_lao_alo.Orchestrator.Api.Groups
use lalo_lao_alo.Orchestrator.Api.Router.{serve, serve_rooms}

-- What a handler's result has in common with the services that it is given.
pub data Meets (P : Services → Services × Reply → Type 0) (f : Handler) : Type 0 where
  meets : ((w : Services) → P w (f w)) → Meets P f

pub met :
    {P : Services → Services × Reply → Type 0} {f : Handler}
    → Meets P f
    → (w : Services) → P w (f w)
met (meets k) = k

pub Meets-if :
    {P : Services → Services × Reply → Type 0} (b : Bool) {f g : Handler}
    → Meets P f
    → Meets P g
    → Meets P (if b then f else g)
Meets-if true k l = k
Meets-if false k l = l

-- A relation that every handler has, the dispatch has.
module _ (P : Services → Services × Reply → Type 0) (o : Outside) (r : Request) where
  pub serve_rooms-Meets :
      Meets P (Sessions.handle_get_session o r)
      → Meets P (Groups.handle_create_room o r)
      → Meets P (Groups.handle_invite_to_room o r)
      → Meets P (Groups.handle_join_room o r)
      → Meets P (Groups.handle_leave_room o r)
      → Meets P (Groups.handle_end_room o r)
      → Meets P (Groups.handle_get_room_participants o r)
      → Meets P (say (record { status = 404; body = complaint not_found }))
      → Meets P (serve_rooms o r)
  unfolding serve_rooms
  serve_rooms-Meets a b c d e f g h = search Meets-if depth 20

  pub serve-Meets :
      Meets P (Sessions.handle_create_session o r)
      → Meets P Sessions.handle_list_sessions
      → Meets P (Sessions.handle_join_session o r)
      → Meets P (Sessions.handle_leave_session o r)
      → Meets P (Sessions.handle_end_session o r)
      → Meets P (Sessions.handle_update_media o r)
      → Meets P (Sessions.handle_get_turn_credentials r)
      → Meets P (Sessions.handle_get_session o r)
      → Meets P (serve_rooms o r)
      → Meets P (serve o r)
  unfolding serve
  serve-Meets a b c d e f g h k = search Meets-if depth 20
