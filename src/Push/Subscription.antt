-- ===== src/Push/Subscription.antt =====
-- The push gateway on the event bus: `SubscribeToCallEvents` of internal/push/gateway.go with
-- internal/events/bus.go.
use lalo_lao_alo.Base.{ℕ, zero, suc, ◌≤◌, ◌≡◌, refl, ap, ◌∙◌, Bool, false, Option, none, some, ltb}
use lalo_lao_alo.Common.{UserId, Time}
use lalo_lao_alo.Text.{Text, text}
use lalo_lao_alo.Events.Subjects.{subject_call_initiated}
use lalo_lao_alo.Events.Bus.{Codec, RoundTrips, Envelope, Bus, publish, Handler, ack}
use lalo_lao_alo.Events.Deliveries.{Broker, after, replicate, deliver_all, repeated_while_lost}
use lalo_lao_alo.Events.Published.{repeat, published_raw}
use lalo_lao_alo.Push.Gateway.{Outside, Gateway, UserProfile, CallInitiated, on_call_initiated}

-- `decode` writes the payload as JSON and reads it as the event. Whatever comes out, the handler
-- returns no error.
abbrev pub decoded : Option CallInitiated → (CallInitiated → Gateway → Gateway) → Gateway → Gateway
decoded none f g = g
decoded (some ev) f g = f ev g

unfoldable pub call_event_handler :
    Outside → (UserId → Option UserProfile) → (Text → Option CallInitiated) → Handler Gateway
call_event_handler o profile_of decode env raw g =
    (decoded (decode env.payload) (on_call_initiated o profile_of) g, false)

-- The consumer that `SubscribeToCallEvents` makes.
abbrev pub consumer_name : Text
consumer_name = text "push-gateway"

after-repeat :
    (o : Outside) (profile_of : UserId → Option UserProfile) (decode : Text → Option CallInitiated)
    (raw : Text) (env : Envelope) (ev : CallInitiated) (n : ℕ) (g : Gateway)
    → decode env.payload ≡ some ev
    → after (call_event_handler o profile_of decode) raw env n g
      ≡ repeat n (on_call_initiated o profile_of ev) g
unfolding call_event_handler
after-repeat o profile_of decode raw env ev zero g e = refl
after-repeat o profile_of decode raw env ev (suc n) g e =
    rw (e) (after-repeat o profile_of decode raw env ev n (on_call_initiated o profile_of ev g) e)

-- A call's event that a bus has published, and that the gateway decodes, where the encoding of
-- envelopes can be undone and the first `k` replies to its deliveries are lost, at most four: the
-- gateway sends the push of the call `k + 1` times, once where no reply is lost, and acknowledges
-- each delivery.
pub call_event_pushed :
    (j : Codec) (takes : Text → Text → Bool) (bus : Bus) (now : Time) (fresh : ℕ)
    (payload raw : Text) (b : Broker) (o : Outside) (profile_of : UserId → Option UserProfile)
    (decode : Text → Option CallInitiated) (ev : CallInitiated) (k : ℕ) (g : Gateway)
    → RoundTrips j
    → publish j takes bus now fresh subject_call_initiated payload ≡ (none, some raw)
    → decode payload ≡ some ev
    → k ≤ 4
    → deliver_all j
        (call_event_handler o profile_of decode)
        b
        subject_call_initiated
        consumer_name
        raw
        (λ n. ltb k n)
        5
        g
      ≡ (repeat (suc k) (on_call_initiated o profile_of ev) g, replicate (suc k) ack)
unfolding call_event_handler
call_event_pushed j takes bus now fresh payload raw b o profile_of decode ev k g trips h e l =
    let env : Envelope = record {
      id = fresh;
      subject = subject_call_initiated;
      timestamp = now;
      source = bus.source;
      payload = payload;
    } in
    let u = published_raw j takes bus now fresh subject_call_initiated payload raw trips h in
    repeated_while_lost j (call_event_handler o profile_of decode) b subject_call_initiated
      consumer_name raw env k g u (λ g'. refl) l
    ∙ ap (λ g'. (g', replicate (suc k) ack))
        (after-repeat o profile_of decode raw env ev (suc k) g e)
