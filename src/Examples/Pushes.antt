-- ===== src/Examples/Pushes.antt =====
-- The theorems on the delivery of events, of pushes and of webhooks, and on the call history, at
-- concrete inputs.
use lalo_lao_alo.Base.{
  ℕ, ◌&&◌, Bool, true, false, List, [], ◌∷◌, Option, none, some, ◌≡◌, refl, ltb, arith,
}
use lalo_lao_alo.Text.{Text, text, text_eq, text_eq_iff, done}
use lalo_lao_alo.Push.{PushToken, android}
use lalo_lao_alo.Events.Subjects.{subject_call_initiated}
use lalo_lao_alo.Events.Bus.{
  Envelope, Codec, RoundTrips, Bus, publish, Reply, term, nak, ack, ConsumerConfig,
}
use lalo_lao_alo.Events.Deliveries.{Broker, deliver_all}
use lalo_lao_alo.Push.Gateway.{Outside, Gateway, CallInitiated, on_call_initiated}
use lalo_lao_alo.Events.Published.{repeat}
use lalo_lao_alo.Push.Subscription as Subscription
use lalo_lao_alo.Push.Subscription.{call_event_handler, consumer_name}
use lalo_lao_alo.Push.Senders.{is_invalid_token, send_with_retry}
use lalo_lao_alo.Push.Apns.{
  Apple, ApnsConfig, ApnsSender, get_jwt, apns_send, ecdsa, new_apns_sender,
}
use lalo_lao_alo.Push.Refusals as Refusals
use lalo_lao_alo.Push.ProviderTokens as ProviderTokens
use lalo_lao_alo.Push.ProviderTokens.{Signing, signed_by, apns_sends, FreshFor}
use lalo_lao_alo.Livekit.Webhook.{WebhookEvent, WebhookHandler, participant_left, serve_http}
use lalo_lao_alo.Livekit.Bus as LivekitBus
use lalo_lao_alo.Livekit.Bus.{with_bus}

-- This JSON is the number, the time, and the two texts with their lengths before them.
abbrev again_of : ConsumerConfig → ℕ → Option Reply → Bool
again_of c n (some ack) = false
again_of c n (some term) = false
again_of c n (some nak) = ltb n c.max_deliver
again_of c n none = ltb n c.max_deliver

abbrev broker : Broker
broker = record {
  again = again_of;
  acked = λ c n. refl;
  terminated = λ c n. refl;
  refused = λ c n. refl;
  unanswered = λ c n. refl;
}

-- This JSON writes the events of one subject from one service only: the identifier, the time and the
-- payload.
abbrev written : Envelope → Bool → Option Text
written e true = some (e.id ∷ e.timestamp ∷ e.payload)
written e false = none

abbrev read_back : Text → Option Envelope
read_back [] = none
read_back (i ∷ []) = none
read_back (i ∷ t ∷ p) = some (record {
  id = i;
  subject = subject_call_initiated;
  timestamp = t;
  source = text "signaling";
  payload = p;
})

abbrev codec : Codec
codec = record {
  marshal = λ e.
      written e (text_eq e.subject subject_call_initiated && text_eq e.source (text "signaling"));
  unmarshal = read_back;
}

codec_trips : RoundTrips codec
codec_trips e raw h =
    by_flag (text_eq e.subject subject_call_initiated && text_eq e.source (text "signaling")) refl h
  where
    by_flag :
        (b : Bool)
        → (text_eq e.subject subject_call_initiated && text_eq e.source (text "signaling")) ≡ b
        → written e b ≡ some raw
        → read_back raw ≡ some e
    by_flag false t w = cc
    by_flag true t w =
        let subject = (text_eq_iff e.subject subject_call_initiated).0 (ground (arith, t)) in
        let source = (text_eq_iff e.source (text "signaling")).0 (ground (arith, t)) in
        ground (arith, w, subject, source)

abbrev bus : Bus
bus = record { source = text "signaling"; subs = []; stopped = []; drains = 0 }

abbrev decode_call : Text → Option CallInitiated
decode_call (c ∷ u ∷ v ∷ []) =
    some (record { call_id = c; caller_id = u; callee_id = v; has_video = false })
decode_call _ = none

abbrev row : PushToken
row = record {
  user_id = 2;
  device_id = 5;
  platform = android;
  push_token = 77;
  voip_token = 0;
  app_version = 1;
  bundle_id = 1;
  is_active = true;
  updated_at = 3;
}

abbrev gateway : Gateway
gateway = record {
  table = row ∷ [];
  ring_ttl = 45;
  has_bus = true;
  has_callback = true;
  deliveries = [];
  notified = [];
}

abbrev around : Outside
around = record {
  now = 20;
  apns = none;
  fcm = some (λ p t n. none);
  cancelled = λ n. none;
  list_fails = false;
  invalidate_fails = λ t. false;
}

event_taken :
    publish codec (λ s d. true) bus 9 4 subject_call_initiated (7 ∷ 1 ∷ 2 ∷ [])
    ≡ (none, some (4 ∷ 9 ∷ 7 ∷ 1 ∷ 2 ∷ []))
unfolding publish
event_taken = refl

call_event_pushed_example :
    deliver_all codec
      (call_event_handler around (λ u. none) decode_call)
      broker
      subject_call_initiated
      consumer_name
      (4 ∷ 9 ∷ 7 ∷ 1 ∷ 2 ∷ [])
      (λ n. ltb 1 n)
      5
      gateway
    ≡ (
      repeat 2
          (on_call_initiated around
            (λ u. none)
            (record { call_id = 7; caller_id = 1; callee_id = 2; has_video = false }))
          gateway,
      ack ∷ ack ∷ [],
    )
call_event_pushed_example =
    Subscription.call_event_pushed codec (λ s d. true) bus 9 4 (7 ∷ 1 ∷ 2 ∷ [])
      (4 ∷ 9 ∷ 7 ∷ 1 ∷ 2 ∷ []) broker around (λ u. none) decode_call
      (record { call_id = 7; caller_id = 1; callee_id = 2; has_video = false }) 1 gateway
      codec_trips event_taken refl (omega arith)

-- The signature is the time after the key.
abbrev sign : Signing
sign key team kid at = done (key ∷ at ∷ [])

abbrev cfg : ApnsConfig
cfg = record {
  team_id = text "T";
  key_id = text "K";
  bundle_id = text "com.lalo.app";
  production = true;
}

abbrev apple : ℕ → Apple
apple now = record {
  checked_at = now;
  signed_at = now;
  sign = sign;
  marshalled = done (text "{}");
  creates = λ u. none;
  answers = λ r. done (record { status_code = 410; body = text "Unregistered" });
}

abbrev apns : ApnsSender
apns = record { cfg = cfg; private_key = 6; jwt_token = []; jwt_exp = 0 }

first_token : (get_jwt (apple 100) apns).1 ≡ done (6 ∷ 100 ∷ [])
unfolding get_jwt
first_token = refl

gone_token_given_up_example :
    (e : Text) × (send_with_retry
        (λ n. (apns_send (apple 100) (text "v") (text "c") apns).1)
        (λ n. none)
        3
      ≡ (1, some e))
    × (is_invalid_token e ≡ true)
gone_token_given_up_example =
    Refusals.gone_token_given_up (apple 100) apns (text "v") (text "c") (6 ∷ 100 ∷ []) (text "{}")
      (text "Unregistered") (λ n. (apns_send (apple 100) (text "v") (text "c") apns).1) (λ n. none)
      3 refl first_token refl (λ u. refl) (λ r. refl)

abbrev calls : List (Apple × Text × Text)
calls = (apple 100, text "v", text "c") ∷ []

sender_made : new_apns_sender cfg (ecdsa 6) ≡ done apns
unfolding new_apns_sender
sender_made = refl

kept_token :
    (get_jwt (signed_by sign (apple 3000)) (apns_sends sign calls apns)).1 ≡ done (6 ∷ 100 ∷ [])
unfolding get_jwt apns_sends apns_send
kept_token = refl

provider_token_fresh_example :
    FreshFor sign (apple 3000) (apns_sends sign calls apns) (6 ∷ 100 ∷ [])
provider_token_fresh_example =
    ProviderTokens.provider_token_fresh sign cfg 6 calls apns (apple 3000) (6 ∷ 100 ∷ [])
      sender_made kept_token

abbrev leaving : WebhookEvent
leaving = record {
  event = participant_left;
  room = some (record { name = text "call"; sid = text "RM" });
  participant = some (record { identity = text "u"; sid = text "PA"; joined_at = 5 });
  track = none;
}

abbrev listening : WebhookHandler
listening = record { bus = some (λ s p. true); has_notifier = true; published = []; notices = [] }

bus_not_needed_example :
    ((serve_http true (some leaving) (with_bus none listening)).1
      ≡ (serve_http true (some leaving) listening).1)
    × ((serve_http true (some leaving) (with_bus none listening)).0.notices
        ≡ (serve_http true (some leaving) listening).0.notices)
bus_not_needed_example = LivekitBus.bus_not_needed true (some leaving) listening none
