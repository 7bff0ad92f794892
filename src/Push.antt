-- ===== src/Push.antt =====
-- The push gateway: internal/push. This file has its types; a token of a device is modelled by its
-- number, and 0 is the empty text, or NULL in the database. The text of an error is a text.
pub mod Store
pub mod Rows
pub mod Senders
pub mod Search
pub mod Apns
pub mod Fcm
pub mod Refusals
pub mod ProviderTokens
pub mod Gateway
pub mod Results
pub mod Handlers
pub mod Subscription
pub mod Server
pub mod Owners
use lalo_lao_alo.Base.{ℕ, Bool, true, false, List, Option}
use lalo_lao_alo.Common.{UserId, DeviceId, CallId, Time}
use lalo_lao_alo.Text.{Text}

pub data Platform : Type 0 where
  ios android : Platform
  other_platform : Text → Platform

pub data DeliveryStatus : Type 0 where
  sent failed : DeliveryStatus

pub record PushToken : Type 0 where
  pub user_id : UserId
  pub device_id : DeviceId
  pub platform : Platform
  pub push_token : ℕ
  pub voip_token : ℕ
  pub app_version : ℕ
  pub bundle_id : ℕ
  pub is_active : Bool
  pub updated_at : Time

pub record RegisterRequest : Type 0 where
  pub device_id : DeviceId
  pub platform : Platform
  pub push_token : ℕ
  pub voip_token : ℕ
  pub app_version : ℕ
  pub bundle_id : ℕ

pub record IncomingCallPush : Type 0 where
  pub call_id : CallId
  pub caller_id : UserId
  pub caller_name : ℕ
  pub caller_avatar_url : ℕ
  pub has_video : Bool
  pub timestamp : Time
  pub ttl : ℕ

pub record DeliveryResult : Type 0 where
  pub device_id : DeviceId
  pub platform : Platform
  pub status : DeliveryStatus
  pub error : Text
  pub sent_at : Time

pub record PushResult : Type 0 where
  pub user_id : UserId
  pub call_id : CallId
  pub devices : List DeliveryResult
  pub all_failed : Bool

pub data PushError : Type 0 where
  missing_device_id missing_push_token invalid_platform token_not_found no_active_tokens : PushError
  database_failure : PushError
