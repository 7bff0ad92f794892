-- ===== src/Examples/Media.antt =====
-- The theorems on the policy engine, the push gateway and the metrics writer at concrete inputs. A
-- floating-point number is a natural number here.
use lalo_lao_alo.Base.{
  ℕ, ◌+◌, ◌-◌, ◌/◌, ◌≤◌, ◌<◌, true, false, ◌&&◌, List, [], ◌∷◌, ◌++◌, map, none, some, ◌≡◌, ◌↔◌,
  refl, ltb, ◌==◌, length, filter, if◌then◌else◌,
}
use lalo_lao_alo.Text.{text, text_eq}
use lalo_lao_alo.Abr.{Float, MetricSample, PolicyRule, avg_loss_above, avg_rtt_above, cap_tier}
use lalo_lao_alo.Abr.Rules.{evaluate_participant, is_triggered}
use lalo_lao_alo.Abr.Decisions as Decisions
use lalo_lao_alo.Abr.Decisions.{Decided}
use lalo_lao_alo.Abr.Engine.{PolicyEngine, key, find_metrics, is_recent}
use lalo_lao_alo.Abr.Ticks as Ticks
use lalo_lao_alo.Abr.Server.{MetricsRequest, stamped, serve_metrics, serve_participant, found}
use lalo_lao_alo.Abr.Reports as Reports
use lalo_lao_alo.Abr.Reports.{participant_path, samples_of}
use lalo_lao_alo.Abr.Ticks.{run, returns, tick}
use lalo_lao_alo.Push.{PushToken, IncomingCallPush, PushResult, RegisterRequest, android}
use lalo_lao_alo.Push.Store.{get_active_tokens, most_recent_first, by_recency}
use lalo_lao_alo.Push.Senders as Senders
use lalo_lao_alo.Push.Search as Search
use lalo_lao_alo.Push.Gateway.{Outside, Gateway, send_to, send_incoming_call_push, with_defaults}
use lalo_lao_alo.Push.Results as Results
use lalo_lao_alo.Push.Results.{AllRefused, is_dead}
use lalo_lao_alo.Metrics.{QualitySample, new_writer}
use lalo_lao_alo.Metrics.Batches as Batches
use lalo_lao_alo.Turn.{Dial, new_health_checker, is_healthy}
use lalo_lao_alo.Turn.Health.{is_listed}
use lalo_lao_alo.Turn.Life as Life
use lalo_lao_alo.Turn.Life.{starts, stops, ticks, finishes, not_started, last_found}
use lalo_lao_alo.Metrics.Batches.{metrics, tick, handle_all, concat, any_empty, rows_of}

abbrev float : Float ℕ
float = record {
  nought = 0;
  add = λ a b. a + b;
  div = λ a b. a / b;
  of_int = λ n. n;
  less = λ a b. ltb a b;
}

abbrev sample : MetricSample ℕ
sample = record { timestamp = 10; rtt_ms = 350; loss_percent = 20; bandwidth_kbps = 900 }

abbrev rules : List (PolicyRule ℕ)
rules =
    record {
      name = text "loss";
      condition = avg_loss_above;
      threshold = 8;
      action = cap_tier;
      action_value = text "fair";
    }
    ∷ record {
      name = text "rtt";
      condition = avg_rtt_above;
      threshold = 300;
      action = cap_tier;
      action_value = text "poor";
    }
    ∷ []

abbrev fired : List (PolicyRule ℕ)
fired = filter (is_triggered float (sample ∷ [])) rules

decision_refines_example : Decided fired (evaluate_participant float rules (sample ∷ []))
decision_refines_example = Decisions.decision_refines float rules sample []

abbrev engine : PolicyEngine ℕ
engine = record {
  cfg = record { eval_interval_seconds = 10; metric_window_seconds = 30; rules = rules };
  metrics = [];
  stop_closed = false;
  loops = 1;
  running = true;
}

abbrev phone_request : RegisterRequest
phone_request = record {
  device_id = 5;
  platform = android;
  push_token = 77;
  voip_token = 0;
  app_version = 1;
  bundle_id = 1;
}

-- Each first attempt is refused with an error that may be tried again, each other is accepted.
abbrev second_time : Senders.Sender
second_time n = if n == 0 then some (text "FCM error") else none

abbrev never : Senders.Sender
never n = none

abbrev gone : Senders.Sender
gone n = some (text "NotRegistered")

retries_bounded_example :
    (0 < (Senders.send_with_retry second_time never 1).0)
    × ((Senders.send_with_retry second_time never 1).0 ≤ 2)
    × (((Senders.send_with_retry second_time never 1).1 ≡ none)
        ↔ (second_time ((Senders.send_with_retry second_time never 1).0 - 1) ≡ none))
retries_bounded_example = Search.retries_bounded second_time never 1

abbrev row : PushToken
row = record {
  user_id = 2;
  device_id = 5;
  platform = android;
  push_token = 77;
  voip_token = 0;
  app_version = 1;
  bundle_id = 1;
  is_active = true;
  updated_at = 3;
}

abbrev gateway : Gateway
gateway = record {
  table = row ∷ [];
  ring_ttl = 45;
  has_bus = true;
  has_callback = true;
  deliveries = [];
  notified = [];
}

abbrev around : Senders.Sender → Outside
around answer = record {
  now = 20;
  apns = none;
  fcm = some (λ p t. answer);
  cancelled = never;
  list_fails = false;
  invalidate_fails = λ t. false;
}

abbrev ringing_push : IncomingCallPush
ringing_push = record {
  call_id = 7;
  caller_id = 1;
  caller_name = 1;
  caller_avatar_url = 0;
  has_video = false;
  timestamp = 0;
  ttl = 0;
}

listed : get_active_tokens 2 (row ∷ []) ≡ row ∷ []
unfolding get_active_tokens most_recent_first by_recency
listed = refl

refused : send_to (around gone) (with_defaults 20 45 ringing_push) row ≡ some (text "NotRegistered")
unfolding send_to Senders.send_with_retry Senders.send_from Senders.is_gone_error Senders.contains
    Senders.search_from Senders.is_unregistered_error
refused = refl

invalid : Senders.is_invalid_token (text "NotRegistered") ≡ true
unfolding Senders.is_gone_error Senders.contains Senders.search_from Senders.is_unregistered_error
invalid = refl

push_outcome_example :
    (r : PushResult) × ((send_incoming_call_push (around gone) ringing_push 2 gateway).1
      ≡ (some r, none))
    × ((r.all_failed ≡ true)
        ↔ AllRefused (around gone) (with_defaults 20 45 ringing_push) (row ∷ []))
    × (length r.devices ≡ 1)
    × ((send_incoming_call_push (around gone) ringing_push 2 gateway).0.deliveries ≡ r ∷ [])
    × ((send_incoming_call_push (around gone) ringing_push 2 gateway).0.notified
        ≡ (if r.all_failed && true then (7, 1) ∷ [] else []))
push_outcome_example =
    Results.push_outcome (around gone) ringing_push 2 gateway row [] refl (listed)

abbrev quality : QualitySample ℕ
quality = record {
  participant_id = 2;
  timestamp = 0;
  direction = text "send";
  rtt_ms = 30;
  loss_pct = 1;
  jitter_ms = 2;
  bitrate_kbps = 800;
  framerate = 30;
  resolution = [];
  network_tier = text "good";
}

abbrev events : List (Batches.Event ℕ)
events =
    metrics 9 (record { call_id = 7; samples = quality ∷ quality ∷ quality ∷ [] })
    ∷ metrics 10 (record { call_id = 8; samples = quality ∷ [] })
    ∷ tick
    ∷ []

rows_conserved_example :
    (concat (handle_all events (new_writer 2)).batches ++ (handle_all events (new_writer 2)).buffer
      ≡ rows_of events)
    × (any_empty (handle_all events (new_writer 2)).batches ≡ false)
    × (length (handle_all events (new_writer 2)).buffer
        < (handle_all events (new_writer 2)).batch_size)
rows_conserved_example = Batches.rows_conserved 2 events

abbrev report : MetricsRequest ℕ
report = record { session_id = text "s7"; user_id = text "u1"; samples = sample ∷ sample ∷ [] }

reported_policy_example :
    serve_participant float true
      (participant_path (text "s7") (text "u1"))
      (serve_metrics 12 true (some report) engine).0
    ≡ found (
        evaluate_participant float rules (
          filter (is_recent 12 30) (
            samples_of (find_metrics [] (key (text "s7") (text "u1")))
            ++ map (stamped 12) (sample ∷ sample ∷ []))))
reported_policy_example =
    Reports.reported_policy float 12 report engine (λ e. cc) (λ e. cc) refl refl refl

abbrev answering : Dial
answering = record {
  now = 20;
  latency = λ a. 3;
  error = λ a. if text_eq a (text "b:3478") then some (text "refused") else none;
}

abbrev refusing : Dial
refusing = record answering { error = λ a. some (text "refused") }

-- The first check of "turn:a" is refused and the second, which ends after the stop, is not.
abbrev checking : List Life.Step
checking =
    starts
    ∷ finishes refusing 0 0
    ∷ finishes answering 0 0
    ∷ ticks 0
    ∷ stops
    ∷ finishes answering 0 0
    ∷ finishes answering 0 0
    ∷ Life.returns 0
    ∷ []

healthy_as_last_found_example :
    is_healthy
      (Life.run checking
        (not_started (new_health_checker (text "turn:a" ∷ text "b:3478" ∷ []) 10 5))).checker
      (text "turn:a")
    ≡ (is_listed (text "turn:a") (text "turn:a" ∷ text "b:3478" ∷ [])
        && last_found
            (text "turn:a")
            checking
            (not_started (new_health_checker (text "turn:a" ∷ text "b:3478" ∷ []) 10 5))
            false)
healthy_as_last_found_example =
    Life.healthy_as_last_found (text "turn:a" ∷ text "b:3478" ∷ []) 10 5 (text "turn:a") checking
