-- ===== src/Redis/Keys.antt =====
-- The texts of the keys in Redis: internal/models/redis_keys.go, which the orchestrator uses, and those
-- of the hub in internal/signaling/session.go. The fields of `Redis` stand for these keys.
use lalo_lao_alo.Base.{ℕ, ◌*◌, ◌++◌}
use lalo_lao_alo.Text.{Text, text}

unfoldable pub session_key : Text → Text
session_key id = text "session:" ++ id

unfoldable pub session_participants_key : Text → Text
session_participants_key id = text "session:" ++ (id ++ text ":participants")

unfoldable pub user_active_call_key : Text → Text
user_active_call_key u = text "user:" ++ (u ++ text ":active_call")

unfoldable pub presence_key : Text → Text
presence_key u = text "presence:" ++ u

unfoldable pub turn_credentials_key : Text → Text
turn_credentials_key id = text "turn:creds:" ++ id

-- `SessionTTL`, `PresenceTTL` and `TurnCredsTTL`, in seconds.
abbrev pub session_ttl : ℕ
session_ttl = 24 * 60 * 60

abbrev pub presence_ttl : ℕ
presence_ttl = 5 * 60

abbrev pub turn_creds_ttl : ℕ
turn_creds_ttl = 10 * 60

-- The hub's keys: that of a session is the orchestrator's.
unfoldable pub hub_session_key : Text → Text
hub_session_key id = text "session:" ++ id

unfoldable pub hub_user_key : Text → Text
hub_user_key u = text "user:active_call:" ++ u
