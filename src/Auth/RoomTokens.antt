-- ===== src/Auth/RoomTokens.antt =====
-- The tokens for rooms of LiveKit: internal/auth/livekit.go. What the library signs is a parameter.
use lalo_lao_alo.Base.{ℕ, ◌+◌, ◌*◌, Bool, true, Option}
use lalo_lao_alo.Text.{Text}

pub record LivekitTokenService : Type 0 where
  pub api_key : Text
  pub api_secret : Text

pub record RoomPermissions : Type 0 where
  pub room_name : Text
  pub identity : Text
  pub can_publish : Bool
  pub can_subscribe : Bool
  pub can_publish_data : Bool

-- `VideoGrant` of the library, as far as the source sets it.
pub record VideoGrant : Type 0 where
  pub room_join : Bool
  pub room : Text
  pub can_publish : Bool
  pub can_subscribe : Bool
  pub can_publish_data : Bool

-- What `ToJWT` signs; the time is in seconds.
pub record AccessToken : Type 0 where
  pub api_key : Text
  pub api_secret : Text
  pub grant : VideoGrant
  pub identity : Text
  pub valid_for : ℕ

unfoldable pub new_livekit_token_service : Text → Text → LivekitTokenService
new_livekit_token_service key secret = record { api_key = key; api_secret = secret }

unfoldable pub generate_room_token :
    (AccessToken → Option Text) → LivekitTokenService → RoomPermissions → ℕ → Option Text
generate_room_token to_jwt s perms duration = to_jwt (record {
  api_key = s.api_key;
  api_secret = s.api_secret;
  grant = record {
    room_join = true;
    room = perms.room_name;
    can_publish = perms.can_publish;
    can_subscribe = perms.can_subscribe;
    can_publish_data = perms.can_publish_data;
  };
  identity = perms.identity;
  valid_for = duration + 5 * 60;
})
