-- ===== src/Signaling/Server.antt =====
-- The signaling server: `NewServer`, `Start` and `Shutdown` of internal/signaling/server.go, with the
-- choice of cmd/signaling/main.go whether there are group calls.
use lalo_lao_alo.Base.{Bool, not, ◌&&◌, List, [], none, if◌then◌else◌, is_empty}
use lalo_lao_alo.Common.{Time}
use lalo_lao_alo.Text.{Text, text, text_eq}
use lalo_lao_alo.Auth.Tokens.{Jwt, JwtService}
use lalo_lao_alo.Orchestrator.Services.{Services}
use lalo_lao_alo.Signaling.Hub.{Hub}
use lalo_lao_alo.Signaling.Hub.Run.{stop}
use lalo_lao_alo.Signaling.Handler.{Upgrader, WsRequest, Served, serve_ws, enter}

-- `NewHub`: nobody is connected, and no room is known.
unfoldable pub new_hub : Services → Bool → Hub
new_hub w group_calls = record {
  services = w;
  clients = λ u. [];
  seq_counters = λ u. 0;
  grace = λ u. none;
  timers = λ n. none;
  next_timer = 0;
  ice_buf = λ c. [];
  outbox = [];
  rooms = [];
  hosts = λ c. 0;
  group_calls = group_calls;
  room_grace = λ u. none;
  room_timers = λ n. none;
}

-- Whether `main` makes an orchestrator: the host of Postgres, and whether `sql.Open` takes the
-- settings.
abbrev pub has_group_calls : Text → Bool → Bool
has_group_calls postgres_host opens = not (is_empty postgres_host) && opens

pub data Answer : Type 0 where
  healthy no_route : Answer
  of_ws : Served → Answer

-- The routes of the server. A client that is connected enters the hub.
unfoldable pub serve :
    Jwt → JwtService → Upgrader → List Text → Time → Text → WsRequest → Hub → Hub × Answer
serve jwt s u allowed now path r h =
    if text_eq path (text "/ws")
    then (let x = serve_ws jwt s u allowed now r in (enter x h, of_ws x))
    else if text_eq path (text "/health")
    then (h, healthy)
    else (h, no_route)

-- `Shutdown`.
abbrev pub shutdown : Hub → Hub
shutdown = stop
