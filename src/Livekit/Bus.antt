-- ===== src/Livekit/Bus.antt =====
-- The webhooks of internal/livekit/webhook.go, whatever the event bus does.
use lalo_lao_alo.Base.{◌≡◌, refl, Bool, true, false, Option, none, some}
use lalo_lao_alo.Text.{Text}
use lalo_lao_alo.Livekit.Webhook

-- The same handler with another bus.
abbrev pub with_bus :
    Option (Text → Webhook.SfuPayload → Bool) → Webhook.WebhookHandler → Webhook.WebhookHandler
with_bus bus h = record h { bus = bus }

abbrev Same : Webhook.WebhookHandler → Webhook.WebhookHandler → Type 0
Same h k = (h.notices ≡ k.notices) × (h.has_notifier ≡ k.has_notifier)

published-Same :
    (subject : Text) (p : Webhook.SfuPayload) (h k : Webhook.WebhookHandler)
    → Same h k
    → Same (Webhook.publish subject p h) (Webhook.publish subject p k)
published-Same subject p h k e = by_bus h.bus k.bus
  where
    by_bus :
        (a b : Option (Text → Webhook.SfuPayload → Bool))
        → Same (Webhook.published_on a subject p h) (Webhook.published_on b subject p k)
    by_bus none none = e
    by_bus none (some b) = e
    by_bus (some a) none = e
    by_bus (some a) (some b) = e

notified-Same :
    (n : Webhook.Notice) (h k : Webhook.WebhookHandler)
    → Same h k
    → (Webhook.notify n h).notices ≡ (Webhook.notify n k).notices
notified-Same n h k e = rw (e.0, e.1)

announced-Same :
    (n : Webhook.Notice) (subject : Text) (p : Webhook.SfuPayload) (h k : Webhook.WebhookHandler)
    → Same h k
    → (Webhook.notify n (Webhook.publish subject p h)).notices
      ≡ (Webhook.notify n (Webhook.publish subject p k)).notices
announced-Same n subject p h k e =
    notified-Same n (Webhook.publish subject p h) (Webhook.publish subject p k)
      (published-Same subject p h k e)

dispatched-Same :
    (name : Webhook.EventName) (e : Webhook.WebhookEvent) (h k : Webhook.WebhookHandler)
    → Same h k
    → (Webhook.dispatch name e h).notices ≡ (Webhook.dispatch name e k).notices
unfolding Webhook.handle_participant_joined Webhook.handle_participant_left
    Webhook.handle_room_finished Webhook.handle_track_published
dispatched-Same (Webhook.participant_joined) e h k s = by_parts e.room e.participant
  where
    by_parts :
        (r : Option Webhook.RoomInfo) (p : Option Webhook.ParticipantInfo)
        → (Webhook.joined_participant r p h).notices ≡ (Webhook.joined_participant r p k).notices
    by_parts (some r) (some p) = announced-Same _ _ _ h k s
    by_parts none p = s.0
    by_parts (some r) none = s.0
dispatched-Same (Webhook.participant_left) e h k s = by_parts e.room e.participant
  where
    by_parts :
        (r : Option Webhook.RoomInfo) (p : Option Webhook.ParticipantInfo)
        → (Webhook.left_participant r p h).notices ≡ (Webhook.left_participant r p k).notices
    by_parts (some r) (some p) = announced-Same _ _ _ h k s
    by_parts none p = s.0
    by_parts (some r) none = s.0
dispatched-Same (Webhook.room_finished) e h k s = by_parts e.room
  where
    by_parts :
        (r : Option Webhook.RoomInfo)
        → (Webhook.finished_room r h).notices ≡ (Webhook.finished_room r k).notices
    by_parts (some r) = announced-Same _ _ _ h k s
    by_parts none = s.0
dispatched-Same (Webhook.track_published) e h k s = by_parts e.room e.participant e.track
  where
    by_parts :
        (r : Option Webhook.RoomInfo) (p : Option Webhook.ParticipantInfo)
        (t : Option Webhook.TrackInfo)
        → (Webhook.published_track r p t h).notices ≡ (Webhook.published_track r p t k).notices
    by_parts (some r) (some p) (some t) = announced-Same _ _ _ h k s
    by_parts none p t = s.0
    by_parts (some r) none t = s.0
    by_parts (some r) (some p) none = s.0
dispatched-Same (Webhook.other_event name) e h k s = s.0

-- The answer to a request and what the notifier is told do not depend on the bus: on whether there is
-- one, and on what it takes.
pub bus_not_needed :
    (is_post : Bool) (event : Option Webhook.WebhookEvent) (h : Webhook.WebhookHandler)
    (bus : Option (Text → Webhook.SfuPayload → Bool))
    → ((Webhook.serve_http is_post event (with_bus bus h)).1
        ≡ (Webhook.serve_http is_post event h).1)
      × ((Webhook.serve_http is_post event (with_bus bus h)).0.notices
          ≡ (Webhook.serve_http is_post event h).0.notices)
unfolding Webhook.serve_http
bus_not_needed false event h bus = (refl, refl)
bus_not_needed true none h bus = (refl, refl)
bus_not_needed true (some e) h bus =
    (refl, dispatched-Same e.event e (with_bus bus h) h (refl, refl))
