-- ===== src/Auth/Credentials.antt =====
-- The credentials of the TURN servers: internal/auth/turn.go. The Base64 text of the HMAC of a message
-- under a secret is a parameter.
use lalo_lao_alo.Base.{ℕ, ◌+◌, Bool, List, ◌∷◌, ◌++◌, if◌then◌else◌}
use lalo_lao_alo.Common.{Time, is_zero}
use lalo_lao_alo.Text.{Text, text_eq}
use lalo_lao_alo.Text.Decimal.{show}

pub record TurnCredentials : Type 0 where
  pub username : Text
  pub password : Text
  pub ttl : ℕ
  pub uris : List Text

pub record TurnService : Type 0 where
  pub secret : Text
  pub ttl : ℕ
  pub uris : List Text

abbrev pub Mac : Type 0
Mac = Text → Text → Text

-- A number of seconds that is not positive is 0.
unfoldable pub new_turn_service : Text → ℕ → List Text → TurnService
new_turn_service secret ttl uris = record {
  secret = secret;
  ttl = if is_zero ttl then 86400 else ttl;
  uris = uris;
}

unfoldable pub generate_credentials : Mac → TurnService → Time → Text → TurnCredentials
generate_credentials mac s now user =
    let username : Text = show (now + s.ttl) ++ b':' ∷ user in
    record { username = username; password = mac s.secret username; ttl = s.ttl; uris = s.uris }

unfoldable pub validate_credentials : Mac → TurnService → TurnCredentials → Bool
validate_credentials mac s c = text_eq c.password (mac s.secret c.username)
