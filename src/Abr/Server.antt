-- ===== src/Abr/Server.antt =====
-- The HTTP service of the policy engine: cmd/policy/main.go.
use lalo_lao_alo.Base.{
  ℕ, Bool, ◌||◌, List, [], ◌∷◌, Option, none, some, if◌then◌else◌, is_empty, map,
}
use lalo_lao_alo.Common.{Time, is_zero}
use lalo_lao_alo.Text.Strings.{trim_prefix, split}
use lalo_lao_alo.Text.{Text, text}
use lalo_lao_alo.Abr.{Float, MetricSample, PolicyConfig, PolicyDecision}
use lalo_lao_alo.Abr.Engine.{PolicyEngine, ingest_metrics, get_participant_policy}

-- The configuration of the file, in the fields that the service reads, over the engine's defaults.
unfoldable pub policy_config : {F : Type 0} → PolicyConfig F → PolicyConfig F → PolicyConfig F
policy_config defaults cfg = record {
  eval_interval_seconds =
      if is_zero cfg.eval_interval_seconds
      then defaults.eval_interval_seconds
      else cfg.eval_interval_seconds;
  metric_window_seconds =
      if is_zero cfg.metric_window_seconds
      then defaults.metric_window_seconds
      else cfg.metric_window_seconds;
  rules = if is_empty cfg.rules then defaults.rules else cfg.rules;
}

pub record MetricsRequest (F : Type 0) : Type 0 where
  pub session_id : Text
  pub user_id : Text
  pub samples : List (MetricSample F)

-- A sample with no time gets the time of the request.
abbrev pub stamped : {F : Type 0} → Time → MetricSample F → MetricSample F
stamped now s = record s { timestamp = if is_zero s.timestamp then now else s.timestamp }

module _ {F : Type 0} where
  abbrev pub take_in : Time → Option (MetricsRequest F) → PolicyEngine F → PolicyEngine F × ℕ
  take_in now none e = (e, 400)
  take_in now (some req) e =
      if is_empty req.session_id || is_empty req.user_id || is_empty req.samples
      then (e, 400)
      else (ingest_metrics now req.session_id req.user_id (map (stamped now) req.samples) e, 202)

  -- `/v1/policy/metrics`: the engine after the request, and the status.
  unfoldable pub serve_metrics :
      Time → Bool → Option (MetricsRequest F) → PolicyEngine F → PolicyEngine F × ℕ
  serve_metrics now is_post body e = if is_post then take_in now body e else (e, 405)

pub data Answer : Type 0 where
  method_not_allowed invalid_path policy_not_found : Answer
  policy : PolicyDecision → Answer

abbrev pub found : Option PolicyDecision → Answer
found none = policy_not_found
found (some d) = policy d

module _ {F : Type 0} where
  abbrev pub look_up : Float F → List Text → PolicyEngine F → Answer
  look_up float (session_id ∷ user_id ∷ []) e =
      if is_empty session_id || is_empty user_id
      then invalid_path
      else found (get_participant_policy float session_id user_id e)
  look_up float [] e = invalid_path
  look_up float (s ∷ []) e = invalid_path
  look_up float (s ∷ t ∷ u ∷ parts) e = invalid_path

  -- `/v1/policy/participant/`.
  unfoldable pub serve_participant : Float F → Bool → Text → PolicyEngine F → Answer
  serve_participant float is_get path e =
      if is_get
      then look_up float (split b'/' (trim_prefix (text "/v1/policy/participant/") path)) e
      else method_not_allowed
