-- ===== src/Metrics/Subscription.antt =====
-- The metrics writer on the event bus: `Start` of internal/metrics/writer.go and decode.go, with
-- internal/events/bus.go.
use lalo_lao_alo.Base.{ℕ, zero, suc, ◌≤◌, ◌≡◌, refl, ap, ◌∙◌, Bool, false, Option, none, some, ltb}
use lalo_lao_alo.Common.{Time}
use lalo_lao_alo.Text.{Text, text}
use lalo_lao_alo.Events.Subjects.{subject_quality_metrics}
use lalo_lao_alo.Events.Bus.{Codec, RoundTrips, Envelope, Bus, publish, Handler, ack}
use lalo_lao_alo.Events.Published.{repeat, published_raw}
use lalo_lao_alo.Events.Deliveries.{Broker, after, replicate, deliver_all, repeated_while_lost}
use lalo_lao_alo.Metrics.{QualityMetrics, Writer, ingest}

module _ {F : Type 0} where
  -- `decodePayload`: `payload_of` reads the payload's JSON out of the envelope's, and `read` the
  -- metrics out of that.
  abbrev pub read_from :
      (Text → Option (QualityMetrics F)) → Option Text → Option (QualityMetrics F)
  read_from read none = none
  read_from read (some payload) = read payload

  unfoldable pub decode_payload :
      (Text → Option Text) → (Text → Option (QualityMetrics F)) → Text → Option (QualityMetrics F)
  decode_payload payload_of read raw = read_from read (payload_of raw)

  abbrev pub taken_in : Time → Option (QualityMetrics F) → Writer F → Writer F
  taken_in now none w = w
  taken_in now (some m) w = ingest now m w

  -- The handler of `Start`. A payload that comes from JSON is never the struct itself, so that it is
  -- always decoded from the message; whatever comes out, the handler returns no error.
  unfoldable pub metrics_handler :
      Time → (Text → Option Text) → (Text → Option (QualityMetrics F)) → Handler (Writer F)
  unfolding decode_payload
  metrics_handler now payload_of read env raw w =
      (taken_in now (decode_payload payload_of read raw) w, false)

abbrev pub consumer_name : Text
consumer_name = text "metrics-writer"

after-ingest :
    {F : Type 0} (now : Time) (payload_of : Text → Option Text)
    (read : Text → Option (QualityMetrics F)) (raw : Text) (env : Envelope) (m : QualityMetrics F)
    (n : ℕ) (w : Writer F)
    → decode_payload payload_of read raw ≡ some m
    → after (metrics_handler now payload_of read) raw env n w ≡ repeat n (ingest now m) w
unfolding metrics_handler
after-ingest now payload_of read raw env m zero w e = refl
after-ingest now payload_of read raw env m (suc n) w e =
    rw e (after-ingest now payload_of read raw env m n (ingest now m w) e)

-- Metrics that a bus has published, and that the writer decodes from the message, where the encoding
-- of envelopes can be undone and the first `k` replies to its deliveries are lost, at most four: the
-- writer takes all samples of the message in `k + 1` times, once where no reply is lost.
metrics_taken_in :
    {F : Type 0} (j : Codec) (takes : Text → Text → Bool) (bus : Bus) (now sent_at : Time)
    (fresh : ℕ) (payload raw : Text) (b : Broker) (payload_of : Text → Option Text)
    (read : Text → Option (QualityMetrics F)) (m : QualityMetrics F) (k : ℕ) (w : Writer F)
    → RoundTrips j
    → publish j takes bus sent_at fresh subject_quality_metrics payload ≡ (none, some raw)
    → decode_payload payload_of read raw ≡ some m
    → k ≤ 4
    → deliver_all j
        (metrics_handler now payload_of read)
        b
        subject_quality_metrics
        consumer_name
        raw
        (λ n. ltb k n)
        5
        w
      ≡ (repeat (suc k) (ingest now m) w, replicate (suc k) ack)
unfolding metrics_handler
metrics_taken_in j takes bus now sent_at fresh payload raw b payload_of read m k w trips h e l =
    let env : Envelope = record {
      id = fresh;
      subject = subject_quality_metrics;
      timestamp = sent_at;
      source = bus.source;
      payload = payload;
    } in
    let u = published_raw j takes bus sent_at fresh subject_quality_metrics payload raw trips h in
    repeated_while_lost j (metrics_handler now payload_of read) b subject_quality_metrics
      consumer_name raw env k w u (λ w'. refl) l
    ∙ ap (λ w'. (w', replicate (suc k) ack))
        (after-ingest now payload_of read raw env m (suc k) w e)
