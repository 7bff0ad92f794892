-- ===== src/Config.antt =====
-- The defaults and the overrides of the configuration: internal/config/config.go. The fields that
-- have a default or a variable are named by two enumerations; the others pass through unchanged and
-- are left out. What the YAML library reads from the file is an argument.
pub mod Precedence
use lalo_lao_alo.Base.{
  ℕ, suc, ◌++◌, ◌-◌, Bool, true, false, ◌||◌, List, [], ◌∷◌, Option, none, some, ◌==◌, ltb,
  if◌then◌else◌, is_empty,
}
use lalo_lao_alo.Common.{ℤ, pos, negsuc}
use lalo_lao_alo.Text.{Text, text}
use lalo_lao_alo.Text.Strings.{split, trim_space}
use lalo_lao_alo.Abr.Rules.{after_spaces}
use lalo_lao_alo.Text.Decimal.{is_digit, digits, show}

pub data TextField : Type 0 where
  server_host postgres_host postgres_user postgres_password postgres_dbname postgres_sslmode :
      TextField
  redis_addr redis_password nats_url : TextField
  clickhouse_addr clickhouse_database clickhouse_user : TextField
  jwt_secret turn_secret livekit_host livekit_api_key livekit_api_secret : TextField
  apns_team_id apns_key_id apns_key_path apns_bundle_id fcm_server_key fcm_project_id : TextField

pub data IntField : Type 0 where
  server_port postgres_port access_token_expiry_mins refresh_token_expiry_days : IntField
  health_check_interval_s health_check_timeout_s push_port orchestrator_port : IntField

pub record Config : Type 0 where
  pub texts : TextField → Text
  pub ints : IntField → ℤ
  pub turn_servers : List Text
  pub allowed_origins : List Text

-- A field with no default keeps the empty text.
abbrev pub default_text : TextField → Text
default_text server_host = text "0.0.0.0"
default_text postgres_host = text "localhost"
default_text postgres_user = text "lalo"
default_text postgres_password = text "lalo_dev"
default_text postgres_dbname = text "lalo"
default_text postgres_sslmode = text "disable"
default_text redis_addr = text "localhost:6379"
default_text nats_url = text "nats://localhost:4222"
default_text clickhouse_addr = text "localhost:9000"
default_text clickhouse_database = text "lalo"
default_text clickhouse_user = text "default"
default_text livekit_host = text "http://localhost:7880"
default_text apns_bundle_id = text "com.lalo.app"
default_text _ = []

abbrev pub default_int : IntField → ℕ
default_int server_port = 8080
default_int postgres_port = 5432
default_int access_token_expiry_mins = 15
default_int refresh_token_expiry_days = 7
default_int health_check_interval_s = 10
default_int health_check_timeout_s = 5
default_int push_port = 8082
default_int orchestrator_port = 8081

abbrev pub int_or : ℕ → ℤ → ℤ
int_or d (pos n) = if n == 0 then pos d else pos n
int_or d (negsuc n) = negsuc n

abbrev pub text_or : Text → Text → Text
text_or d s = if is_empty s then d else s

unfoldable pub apply_defaults : Config → Config
apply_defaults c = record {
  texts = λ f. text_or (default_text f) (c.texts f);
  ints = λ f. int_or (default_int f) (c.ints f);
  turn_servers =
      if is_empty c.turn_servers then text "turn:localhost:3478" ∷ [] else c.turn_servers;
  allowed_origins = c.allowed_origins;
}

-- The variable that overrides a field.
abbrev pub text_variable : TextField → Option Text
text_variable postgres_host = some (text "POSTGRES_HOST")
text_variable postgres_user = some (text "POSTGRES_USER")
text_variable postgres_password = some (text "POSTGRES_PASSWORD")
text_variable postgres_dbname = some (text "POSTGRES_DB")
text_variable redis_addr = some (text "REDIS_ADDR")
text_variable redis_password = some (text "REDIS_PASSWORD")
text_variable nats_url = some (text "NATS_URL")
text_variable clickhouse_addr = some (text "CLICKHOUSE_ADDR")
text_variable jwt_secret = some (text "JWT_SECRET")
text_variable turn_secret = some (text "TURN_SECRET")
text_variable livekit_host = some (text "LIVEKIT_HOST")
text_variable livekit_api_key = some (text "LIVEKIT_API_KEY")
text_variable livekit_api_secret = some (text "LIVEKIT_API_SECRET")
text_variable apns_team_id = some (text "APNS_TEAM_ID")
text_variable apns_key_id = some (text "APNS_KEY_ID")
text_variable apns_key_path = some (text "APNS_KEY_PATH")
text_variable apns_bundle_id = some (text "APNS_BUNDLE_ID")
text_variable fcm_server_key = some (text "FCM_SERVER_KEY")
text_variable fcm_project_id = some (text "FCM_PROJECT_ID")
text_variable _ = none

abbrev pub int_variable : IntField → Option Text
int_variable server_port = some (text "SERVER_PORT")
int_variable postgres_port = some (text "POSTGRES_PORT")
int_variable push_port = some (text "PUSH_PORT")
int_variable orchestrator_port = some (text "ORCHESTRATOR_PORT")
int_variable _ = none

abbrev pub in_range : ℕ → Option ℤ
in_range n = if ltb n 9223372036854775808 then some (pos n) else none

abbrev pub negated : ℕ → Option ℤ
negated n =
    if n == 0
    then some (pos 0)
    else if ltb n 9223372036854775809
    then some (negsuc (n - 1))
    else none

-- The digits that a text begins with, which must have one.
abbrev pub leading : (ℕ → Option ℤ) → Text → Option ℤ
leading sign [] = none
leading sign (c ∷ s) = if is_digit c then sign (digits 0 (c ∷ s)) else none

abbrev pub signed : Text → Option ℤ
signed [] = none
signed (c ∷ s) =
    if c == b'-'
    then leading negated s
    else if c == b'+'
    then leading in_range s
    else leading in_range (c ∷ s)

-- `fmt.Sscanf(v, "%d", &field)`: `none` where it leaves the field as it was.
unfoldable pub scan_field : Text → Option ℤ
scan_field v = signed (after_spaces v)

-- `os.Getenv`: the empty text where a variable is not set.
abbrev pub Environment : Type 0
Environment = Text → Text

abbrev pub text_from : Environment → Option Text → Text → Text
text_from env none s = s
text_from env (some v) s = text_or s (env v)

abbrev pub scanned_or : ℤ → Option ℤ → ℤ
scanned_or n none = n
scanned_or n (some m) = m

abbrev pub int_from : Environment → Option Text → ℤ → ℤ
int_from env none n = n
int_from env (some v) n = if is_empty (env v) then n else scanned_or n (scan_field (env v))

-- The parts that are not blank.
unfoldable pub trimmed_parts : List Text → List Text
trimmed_parts [] = []
trimmed_parts (p ∷ ps) =
    if is_empty (trim_space p) then trimmed_parts ps else trim_space p ∷ trimmed_parts ps

unfoldable pub split_csv : Text → List Text
unfolding trimmed_parts
split_csv s = trimmed_parts (split b',' s)

abbrev pub origins_or : List Text → List Text → List Text
origins_or d os = if is_empty os then d else os

unfoldable pub apply_env_overrides : Environment → Config → Config
unfolding scan_field
apply_env_overrides env c = record {
  texts = λ f. text_from env (text_variable f) (c.texts f);
  ints = λ f. int_from env (int_variable f) (c.ints f);
  turn_servers = c.turn_servers;
  allowed_origins =
      if is_empty (env (text "ALLOWED_ORIGINS"))
      then c.allowed_origins
      else origins_or c.allowed_origins (split_csv (env (text "ALLOWED_ORIGINS")));
}

-- `LoadFromFile`, after the file has been read and parsed.
unfoldable pub load : Environment → Config → Config
load env c = apply_env_overrides env (apply_defaults c)

-- `%d`.
abbrev pub show_int : ℤ → Text
show_int (pos n) = show n
show_int (negsuc n) = b'-' ∷ show (suc n)

-- `DSN` of the settings of Postgres.
unfoldable pub dsn : Config → Text
dsn c =
    text "host="
    ++ c.texts postgres_host
    ++ text " port="
    ++ show_int (c.ints postgres_port)
    ++ text " user="
    ++ c.texts postgres_user
    ++ text " password="
    ++ c.texts postgres_password
    ++ text " dbname="
    ++ c.texts postgres_dbname
    ++ text " sslmode="
    ++ c.texts postgres_sslmode
