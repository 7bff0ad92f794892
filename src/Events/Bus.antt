-- ===== src/Events/Bus.antt =====
-- The event bus: internal/events/bus.go. NATS and JetStream are parameters: what they accept, and when
-- they deliver a message again. `encoding/json` is one too; a payload is its JSON text.
use lalo_lao_alo.Base.{ℕ, suc, ◌≡◌, Bool, List, [], ◌∷◌, ◌++◌, Option, none, some, if◌then◌else◌}
use lalo_lao_alo.Common.{Time}
use lalo_lao_alo.Text.{Text}
use lalo_lao_alo.Events.Subjects.{stream_name, stream_max_age, stream_replicas, all_subjects}

pub record Envelope : Type 0 where
  pub id : ℕ
  pub subject : Text
  pub timestamp : Time
  pub source : Text
  pub payload : Text

pub record Codec : Type 0 where
  pub marshal : Envelope → Option Text
  pub unmarshal : Text → Option Envelope

-- What is marshalled is unmarshalled as it was.
abbrev pub RoundTrips : Codec → Type 0
RoundTrips j = (e : Envelope) (raw : Text) → j.marshal e ≡ some raw → j.unmarshal raw ≡ some e

pub data BusError : Type 0 where
  nats_connect jetstream_init ensure_stream_failed marshal_failed publish_failed : BusError
  consumer_failed consume_failed : BusError

-- `StreamConfig` as `ensureStream` fills it in.
pub record StreamConfig : Type 0 where
  pub name : Text
  pub subjects : List Text
  pub max_age : ℕ
  pub replicas : ℕ

unfoldable pub ensure_stream : (StreamConfig → Bool) → Bool
ensure_stream accepts = accepts (record {
  name = stream_name;
  subjects = all_subjects;
  max_age = stream_max_age;
  replicas = stream_replicas;
})

-- `subs` are the running subscriptions by the names of their consumers; `stopped` records those that
-- were stopped, and `drains` how often the connection was drained.
pub record Bus : Type 0 where
  pub source : Text
  pub subs : List Text
  pub stopped : List Text
  pub drains : ℕ

-- `NewBus`. Where it fails, the connection is closed.
unfoldable pub new_bus : Bool → Bool → (StreamConfig → Bool) → Text → Option BusError × Option Bus
unfolding ensure_stream
new_bus connects inits accepts source =
    if connects
    then if inits
      then if ensure_stream accepts
        then (none, some (record { source = source; subs = []; stopped = []; drains = 0 }))
        else (some ensure_stream_failed, none)
      else (some jetstream_init, none)
    else (some nats_connect, none)

-- `Publish`: the error, and the message that the stream took.
abbrev pub marshalled : (Text → Text → Bool) → Text → Option Text → Option BusError × Option Text
marshalled takes subject none = (some marshal_failed, none)
marshalled takes subject (some raw) =
    if takes subject raw then (none, some raw) else (some publish_failed, none)

unfoldable pub publish :
    Codec → (Text → Text → Bool) → Bus → Time → ℕ → Text → Text → Option BusError × Option Text
publish j takes b now fresh subject payload = marshalled takes subject (
    j.marshal (record {
      id = fresh;
      subject = subject;
      timestamp = now;
      source = b.source;
      payload = payload;
    }))

-- A handler works on the state of its service, and returns whether it returned an error.
abbrev pub Handler : Type 0 → Type 0
Handler S = Envelope → Text → S → S × Bool

pub data Reply : Type 0 where
  term nak ack : Reply

-- The function that `Subscribe` gives to `Consume`.
abbrev pub replied : {S : Type 0} → S × Bool → S × Reply
replied (s, failed) = (s, if failed then nak else ack)

abbrev pub handled : {S : Type 0} → Handler S → Text → Option Envelope → S → S × Reply
handled h raw none s = (s, term)
handled h raw (some env) s = replied (h env raw s)

unfoldable pub on_message : {S : Type 0} → Codec → Handler S → Text → S → S × Reply
on_message j h raw s = handled h raw (j.unmarshal raw) s

-- `ConsumerConfig`, with its policies left out: replies are explicit, and only messages that are new
-- to the consumer are delivered.
pub record ConsumerConfig : Type 0 where
  pub durable : Text
  pub filter_subject : Text
  pub ack_wait : ℕ
  pub max_deliver : ℕ

unfoldable pub consumer_config : Text → Text → ConsumerConfig
consumer_config subject consumer_name = record {
  durable = consumer_name;
  filter_subject = subject;
  ack_wait = 30;
  max_deliver = 5;
}

-- The registration of `Subscribe`.
unfoldable pub subscribe :
    (ConsumerConfig → Bool) → Bool → Text → Text → Bus → Bus × Option BusError
unfolding consumer_config
subscribe creates consumes subject consumer_name b =
    if creates (consumer_config subject consumer_name)
    then if consumes
      then (record b { subs = b.subs ++ consumer_name ∷ [] }, none)
      else (b, some consume_failed)
    else (b, some consumer_failed)

-- `Close`.
unfoldable pub close : Bus → Bus
close b = record b { subs = []; stopped = b.stopped ++ b.subs; drains = suc b.drains }
