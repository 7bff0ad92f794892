-- ===== src/Push/Gateway.antt =====
-- The delivery of a call to the devices of its callee: internal/push/gateway.go. The deliveries run
-- at the same time and are collected as they come; the model takes the tokens in their order.
use lalo_lao_alo.Base.{
  ℕ, Bool, true, false, not, ◌&&◌, List, [], ◌∷◌, ◌++◌, Option, none, some, if◌then◌else◌,
}
use lalo_lao_alo.Common.{UserId, CallId, Time, is_zero}
use lalo_lao_alo.Text.{Text, text}
use lalo_lao_alo.Push.{
  Platform, ios, android, other_platform, DeliveryStatus, sent, failed, PushToken, IncomingCallPush,
  DeliveryResult, PushResult, PushError, no_active_tokens, database_failure,
}
use lalo_lao_alo.Push.Store.{Table, get_active_tokens, invalidate_token}
use lalo_lao_alo.Push.Senders.{Sender, send_with_retry, is_invalid_token}

-- What the outside decides: the clock, the senders that are configured, the context, and which
-- statements the database refuses.
pub record Outside : Type 0 where
  pub now : Time
  pub apns : Option (IncomingCallPush → ℕ → Sender)
  pub fcm : Option (IncomingCallPush → ℕ → Sender)
  pub cancelled : Sender
  pub list_fails : Bool
  pub invalidate_fails : ℕ → Bool

-- `notified` are the calls of `onAllFailed`, `deliveries` the events that are published.
pub record Gateway : Type 0 where
  pub table : Table
  pub ring_ttl : ℕ
  pub has_bus : Bool
  pub has_callback : Bool
  pub deliveries : List PushResult
  pub notified : List (CallId × UserId)

-- `NewGateway`.
unfoldable pub new_gateway : Table → ℕ → Bool → Bool → Gateway
new_gateway table ring_timeout has_bus has_callback = record {
  table = table;
  ring_ttl = if is_zero ring_timeout then 45 else ring_timeout;
  has_bus = has_bus;
  has_callback = has_callback;
  deliveries = [];
  notified = [];
}

-- `push` with its time to live and its time filled in where they are 0.
unfoldable pub with_defaults : Time → ℕ → IncomingCallPush → IncomingCallPush
with_defaults now ttl p = record p {
  ttl = if is_zero p.ttl then ttl else p.ttl;
  timestamp = if is_zero p.timestamp then now else p.timestamp;
}

abbrev pub Configured : Type 0
Configured = Option (IncomingCallPush → ℕ → Sender)

abbrev pub by_apns : Configured → Sender → IncomingCallPush → PushToken → Option Text
by_apns none cancelled p t = some (text "APNs sender not configured")
by_apns (some send) cancelled p t =
    (send_with_retry (send p (if is_zero t.voip_token then t.push_token else t.voip_token))
      cancelled 0).1

abbrev pub by_fcm : Configured → Sender → IncomingCallPush → PushToken → Option Text
by_fcm none cancelled p t = some (text "FCM sender not configured")
by_fcm (some send) cancelled p t = (send_with_retry (send p t.push_token) cancelled 1).1

abbrev pub by_platform : Outside → IncomingCallPush → Platform → PushToken → Option Text
by_platform o p ios t = by_apns o.apns o.cancelled p t
by_platform o p android t = by_fcm o.fcm o.cancelled p t
by_platform o p (other_platform name) t = some (text "unsupported platform: " ++ name)

-- The error of the delivery to one device.
unfoldable pub send_to : Outside → IncomingCallPush → PushToken → Option Text
send_to o p t = by_platform o p t.platform t

abbrev pub delivery : Outside → PushToken → Option Text → DeliveryResult
delivery o t none = record {
  device_id = t.device_id;
  platform = t.platform;
  status = sent;
  error = [];
  sent_at = o.now;
}
delivery o t (some e) = record {
  device_id = t.device_id;
  platform = t.platform;
  status = failed;
  error = e;
  sent_at = o.now;
}

abbrev pub is_sent : DeliveryStatus → Bool
is_sent sent = true
is_sent failed = false

-- The loop that collects the results: the devices, `allFailed`, and the table.
abbrev pub invalidated : Outside → PushToken → DeliveryResult → Table → Table
invalidated o t dr table =
    if not (is_sent dr.status) && is_invalid_token dr.error && not (o.invalidate_fails t.push_token)
    then invalidate_token o.now t.push_token table
    else table

unfoldable pub collect :
    Outside → IncomingCallPush → Table → Table → (List DeliveryResult × Bool) × Table
collect o p [] table = (([], true), table)
collect o p (t ∷ ts) table =
    let dr = delivery o t (send_to o p t) in
    let rest = collect o p ts (invalidated o t dr table) in
    ((dr ∷ rest.0.0, if is_sent dr.status then false else rest.0.1), rest.1)

-- The result is absent where the code returns `nil`.
abbrev pub Outcome : Type 0
Outcome = Option PushResult × Option PushError

abbrev pub finished : UserId → CallId → (List DeliveryResult × Bool) → PushResult
finished callee c x = record { user_id = callee; call_id = c; devices = x.0; all_failed = x.1 }

abbrev pub announced : IncomingCallPush → PushResult → Table → Gateway → Gateway
announced p r table g = record g {
  table = table;
  deliveries = if g.has_bus then g.deliveries ++ r ∷ [] else g.deliveries;
  notified =
      if r.all_failed && g.has_callback
      then g.notified ++ (p.call_id, p.caller_id) ∷ []
      else g.notified;
}

abbrev pub send_all : Outside → IncomingCallPush → UserId → Table → Gateway → Gateway × Outcome
send_all o p callee [] g = (g, (some (finished callee p.call_id ([], true)), some no_active_tokens))
send_all o p callee (t ∷ ts) g =
    let x = collect o (with_defaults o.now g.ring_ttl p) (t ∷ ts) g.table in
    let r = finished callee p.call_id x.0 in (announced p r x.1 g, (some r, none))

unfoldable pub send_incoming_call_push :
    Outside → IncomingCallPush → UserId → Gateway → Gateway × Outcome
send_incoming_call_push o p callee g =
    if o.list_fails
    then (g, (none, some database_failure))
    else send_all o p callee (get_active_tokens callee g.table) g

pub record UserProfile : Type 0 where
  pub display_name : ℕ
  pub avatar_url : ℕ

pub record CallInitiated : Type 0 where
  pub call_id : CallId
  pub caller_id : UserId
  pub callee_id : UserId
  pub has_video : Bool

-- The name falls back to the caller's identifier, also where the database refuses.
abbrev pub incoming : Time → ℕ → CallInitiated → Option UserProfile → IncomingCallPush
incoming now ttl ev none = record {
  call_id = ev.call_id;
  caller_id = ev.caller_id;
  caller_name = ev.caller_id;
  caller_avatar_url = 0;
  has_video = ev.has_video;
  timestamp = now;
  ttl = ttl;
}
incoming now ttl ev (some profile) = record {
  call_id = ev.call_id;
  caller_id = ev.caller_id;
  caller_name = profile.display_name;
  caller_avatar_url = profile.avatar_url;
  has_video = ev.has_video;
  timestamp = now;
  ttl = ttl;
}

-- The handler that `SubscribeToCallEvents` installs; it acknowledges whatever comes out.
unfoldable pub on_call_initiated :
    Outside → (UserId → Option UserProfile) → CallInitiated → Gateway → Gateway
on_call_initiated o profile_of ev g =
    (send_incoming_call_push o (incoming o.now g.ring_ttl ev (profile_of ev.caller_id)) ev.callee_id
      g).0
