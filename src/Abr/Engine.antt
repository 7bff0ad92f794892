-- ===== src/Abr/Engine.antt =====
-- The state of the policy engine, and its operations: internal/abr/policy_engine.go. The map from
-- keys to metrics is an association list; Go visits a map in any order, so the order of the pushes
-- is one of those that are possible.
use lalo_lao_alo.Base.{
  ℕ, suc, ◌+◌, ◌-◌, Bool, true, false, not, List, [], ◌∷◌, ◌++◌, Option, none, some, ltb, filter,
  if◌then◌else◌,
}
use lalo_lao_alo.Common.{Time}
use lalo_lao_alo.Text.{Text, text_eq}
use lalo_lao_alo.Abr.{Float, MetricSample, ParticipantMetrics, PolicyDecision, PolicyConfig}
use lalo_lao_alo.Abr.Rules.{evaluate_participant}

abbrev pub Metrics : Type 0 → Type 0
Metrics F = List (Text × ParticipantMetrics F)

-- `stop_closed` says whether the channel `stop` is closed, `loops` how many goroutines of `Start` have not
-- returned: they go on until their `select` takes the close.
pub record PolicyEngine (F : Type 0) : Type 0 where
  pub cfg : PolicyConfig F
  pub metrics : Metrics F
  pub stop_closed : Bool
  pub loops : ℕ
  pub running : Bool

-- `roomName + ":" + identity`.
abbrev pub key : Text → Text → Text
key room_name identity = room_name ++ b':' ∷ identity

-- What goes out on the data channel; an empty reason is left out.
pub record PolicyUpdate : Type 0 where
  pub room_id : Text
  pub destination : Text
  pub decision : PolicyDecision

module _ {F : Type 0} where
  unfoldable pub find_metrics : Metrics F → Text → Option (ParticipantMetrics F)
  find_metrics [] k = none
  find_metrics ((j, pm) ∷ ms) k =
      let rest = find_metrics ms k in if text_eq j k then some pm else rest

  unfoldable pub put_metrics : Metrics F → Text → ParticipantMetrics F → Metrics F
  put_metrics [] k pm = (k, pm) ∷ []
  put_metrics ((j, pm') ∷ ms) k pm =
      let rest = put_metrics ms k pm in if text_eq j k then (j, pm) ∷ ms else (j, pm') ∷ rest

  unfoldable pub new_policy_engine : PolicyConfig F → PolicyEngine F
  new_policy_engine cfg = record {
    cfg = cfg;
    metrics = [];
    stop_closed = false;
    loops = 0;
    running = false;
  }

  unfoldable pub start : PolicyEngine F → PolicyEngine F
  start e = if e.running then e else record e { running = true; loops = suc e.loops }

  -- `none` is the panic of a second `close`.
  unfoldable pub stop : PolicyEngine F → Option (PolicyEngine F)
  stop e =
      if e.running
      then if e.stop_closed then none else some (record e { running = false; stop_closed = true })
      else some e

  -- The `select` of a loop takes the close of the channel, if it is closed.
  unfoldable pub loop_return : PolicyEngine F → PolicyEngine F
  loop_return e = if e.stop_closed then record e { loops = e.loops - 1 } else e

  abbrev pub known : Text → Text → Time → Option (ParticipantMetrics F) → ParticipantMetrics F
  known room_name identity now none = record {
    identity = identity;
    room_name = room_name;
    samples = [];
    updated_at = now;
  }
  known room_name identity now (some pm) = pm

  -- `s.Timestamp.After(now.Add(-window))`.
  abbrev pub is_recent : Time → ℕ → MetricSample F → Bool
  is_recent now window s = ltb now (s.timestamp + window)

  unfoldable pub ingest_metrics :
      Time → Text → Text → List (MetricSample F) → PolicyEngine F → PolicyEngine F
  ingest_metrics now room_name identity samples e =
      let pm = known room_name identity now (find_metrics e.metrics (key room_name identity)) in
      record e {
        metrics = put_metrics e.metrics (key room_name identity) (record pm {
          samples = filter (is_recent now e.cfg.metric_window_seconds) (pm.samples ++ samples);
          updated_at = now;
        });
      }

  unfoldable pub remove_participant : Text → Text → PolicyEngine F → PolicyEngine F
  remove_participant room_name identity e = record e {
    metrics = filter (λ m. not (text_eq m.0 (key room_name identity))) e.metrics;
  }

  abbrev pub decided :
      Float F → PolicyConfig F → Option (ParticipantMetrics F) → Option PolicyDecision
  decided float cfg none = none
  decided float cfg (some pm) = evaluate_participant float cfg.rules pm.samples

  unfoldable pub get_participant_policy :
      Float F → Text → Text → PolicyEngine F → Option PolicyDecision
  get_participant_policy float room_name identity e =
      decided float e.cfg (find_metrics e.metrics (key room_name identity))

  unfoldable pub update_config : PolicyConfig F → PolicyEngine F → PolicyEngine F
  update_config cfg e = record e { cfg = cfg }

  abbrev pub push_policy_update : ParticipantMetrics F → Option PolicyDecision → List PolicyUpdate
  push_policy_update pm none = []
  push_policy_update pm (some d) =
      record { room_id = pm.room_name; destination = pm.identity; decision = d } ∷ []

  unfoldable pub evaluate_each : Float F → PolicyConfig F → Metrics F → List PolicyUpdate
  evaluate_each float cfg [] = []
  evaluate_each float cfg ((k, pm) ∷ ms) =
      push_policy_update pm (evaluate_participant float cfg.rules pm.samples)
      ++ evaluate_each float cfg ms

  unfoldable pub evaluate_all : Float F → PolicyEngine F → List PolicyUpdate
  evaluate_all float e = evaluate_each float e.cfg e.metrics
