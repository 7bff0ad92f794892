-- ===== src/Livekit/Webhook.antt =====
-- The webhooks of the SFU: internal/livekit/webhook.go.
use lalo_lao_alo.Base.{ℕ, Bool, List, [], ◌∷◌, ◌++◌, Option, none, some, if◌then◌else◌}
use lalo_lao_alo.Common.{Time}
use lalo_lao_alo.Text.{Text, text}
use lalo_lao_alo.Events.Subjects.{
  subject_sfu_participant_joined, subject_sfu_participant_left, subject_sfu_room_finished,
  subject_sfu_track_published,
}

-- The messages of the SDK, as far as the handler reads them.
pub record RoomInfo : Type 0 where
  pub name : Text
  pub sid : Text

pub record ParticipantInfo : Type 0 where
  pub identity : Text
  pub sid : Text
  pub joined_at : Time

pub record TrackInfo : Type 0 where
  pub sid : Text
  pub kind : Text
  pub simulcast : Bool

pub data EventName : Type 0 where
  participant_joined participant_left room_finished track_published : EventName
  other_event : Text → EventName

pub record WebhookEvent : Type 0 where
  pub event : EventName
  pub room : Option RoomInfo
  pub participant : Option ParticipantInfo
  pub track : Option TrackInfo

-- A time of 0 is left out of the JSON.
pub record SfuParticipantEvent : Type 0 where
  pub room_name : Text
  pub identity : Text
  pub participant_sid : Text
  pub joined_at : Time

pub record SfuRoomEvent : Type 0 where
  pub room_name : Text
  pub room_sid : Text

pub record SfuTrackEvent : Type 0 where
  pub room_name : Text
  pub identity : Text
  pub track_sid : Text
  pub track_type : Text
  pub simulcast : Bool

pub data SfuPayload : Type 0 where
  about_participant : SfuParticipantEvent → SfuPayload
  about_room : SfuRoomEvent → SfuPayload
  about_track : SfuTrackEvent → SfuPayload

-- The calls of `WebhookNotifier`.
pub data Notice : Type 0 where
  on_participant_joined on_participant_left : Text → Text → Notice
  on_room_finished : Text → Notice
  on_track_published : Text → Text → TrackInfo → Notice

-- `bus` is what the bus takes, if there is one. `published` and `notices` record what the bus took and
-- what the notifier was told, oldest first.
pub record WebhookHandler : Type 0 where
  pub bus : Option (Text → SfuPayload → Bool)
  pub has_notifier : Bool
  pub published : List (Text × SfuPayload)
  pub notices : List Notice

-- `NewWebhookHandler`.
unfoldable pub new_webhook_handler : Option (Text → SfuPayload → Bool) → Bool → WebhookHandler
new_webhook_handler bus has_notifier = record {
  bus = bus;
  has_notifier = has_notifier;
  published = [];
  notices = [];
}

abbrev pub published_on :
    Option (Text → SfuPayload → Bool) → Text → SfuPayload → WebhookHandler → WebhookHandler
published_on none subject p h = h
published_on (some takes) subject p h = record h {
  published = if takes subject p then h.published ++ (subject, p) ∷ [] else h.published;
}

abbrev pub publish : Text → SfuPayload → WebhookHandler → WebhookHandler
publish subject p h = published_on h.bus subject p h

abbrev pub notify : Notice → WebhookHandler → WebhookHandler
notify n h = record h { notices = if h.has_notifier then h.notices ++ n ∷ [] else h.notices }

abbrev pub joined_participant :
    Option RoomInfo → Option ParticipantInfo → WebhookHandler → WebhookHandler
joined_participant (some r) (some p) h = notify (on_participant_joined r.name p.identity) (
    publish subject_sfu_participant_joined
      (about_participant (record {
        room_name = r.name;
        identity = p.identity;
        participant_sid = p.sid;
        joined_at = p.joined_at;
      }))
      h)
joined_participant none p h = h
joined_participant (some r) none h = h

unfoldable pub handle_participant_joined : WebhookEvent → WebhookHandler → WebhookHandler
handle_participant_joined e h = joined_participant e.room e.participant h

abbrev pub left_participant :
    Option RoomInfo → Option ParticipantInfo → WebhookHandler → WebhookHandler
left_participant (some r) (some p) h = notify (on_participant_left r.name p.identity) (
    publish subject_sfu_participant_left
      (about_participant (record {
        room_name = r.name;
        identity = p.identity;
        participant_sid = p.sid;
        joined_at = 0;
      }))
      h)
left_participant none p h = h
left_participant (some r) none h = h

unfoldable pub handle_participant_left : WebhookEvent → WebhookHandler → WebhookHandler
handle_participant_left e h = left_participant e.room e.participant h

abbrev pub finished_room : Option RoomInfo → WebhookHandler → WebhookHandler
finished_room none h = h
finished_room (some r) h = notify (on_room_finished r.name) (
    publish subject_sfu_room_finished (about_room (record { room_name = r.name; room_sid = r.sid }))
      h)

unfoldable pub handle_room_finished : WebhookEvent → WebhookHandler → WebhookHandler
handle_room_finished e h = finished_room e.room h

abbrev pub published_track :
    Option RoomInfo → Option ParticipantInfo → Option TrackInfo → WebhookHandler → WebhookHandler
published_track (some r) (some p) (some t) h = notify (on_track_published r.name p.identity t) (
    publish subject_sfu_track_published
      (about_track (record {
        room_name = r.name;
        identity = p.identity;
        track_sid = t.sid;
        track_type = t.kind;
        simulcast = t.simulcast;
      }))
      h)
published_track none p t h = h
published_track (some r) none t h = h
published_track (some r) (some p) none h = h

unfoldable pub handle_track_published : WebhookEvent → WebhookHandler → WebhookHandler
handle_track_published e h = published_track e.room e.participant e.track h

abbrev pub dispatch : EventName → WebhookEvent → WebhookHandler → WebhookHandler
dispatch participant_joined e h = handle_participant_joined e h
dispatch participant_left e h = handle_participant_left e h
dispatch room_finished e h = handle_room_finished e h
dispatch track_published e h = handle_track_published e h
dispatch (other_event name) e h = h

-- `ServeHTTP`: whether the method is POST, and what the SDK receives, nothing where it refuses the
-- signature. The status is the second part.
abbrev pub received : Option WebhookEvent → WebhookHandler → WebhookHandler × ℕ
received none h = (h, 401)
received (some e) h = (dispatch e.event e h, 200)

unfoldable pub serve_http : Bool → Option WebhookEvent → WebhookHandler → WebhookHandler × ℕ
unfolding handle_participant_joined handle_participant_left handle_room_finished
    handle_track_published
serve_http is_post event h = if is_post then received event h else (h, 405)

-- `MediaConfig`, and `DefaultMediaConfig`.
pub record MediaConfig : Type 0 where
  pub audio_codec : Text
  pub video_codecs : List Text
  pub simulcast_layers : ℕ
  pub max_resolution : Text
  pub max_framerate : ℕ

unfoldable pub default_media_config : MediaConfig
default_media_config = record {
  audio_codec = text "opus";
  video_codecs = text "vp8" ∷ text "h264" ∷ [];
  simulcast_layers = 3;
  max_resolution = text "720p";
  max_framerate = 30;
}
