-- ===== src/Abr/Reports.antt =====
-- A report of samples and the policy that is read afterwards: cmd/policy/main.go.
use lalo_lao_alo.Base.{
  ◌≡◌, ◌≢◌, refl, ◌∙◌, ap, true, false, List, [], ◌∷◌, ◌++◌, Option, none, some, is_empty, filter,
  map, contains,
}
use lalo_lao_alo.Common.{Time}
use lalo_lao_alo.Text.Strings.{trim_prefix, split_once}
use lalo_lao_alo.Text.{Text, text, text_eq_self}
use lalo_lao_alo.Abr.{Float, MetricSample, ParticipantMetrics}
use lalo_lao_alo.Abr.Rules.{evaluate_participant}
use lalo_lao_alo.Abr.Engine.{
  PolicyEngine, key, find_metrics, is_recent, known, ingest_metrics, get_participant_policy,
}
use lalo_lao_alo.Abr.Keys.{find-put}
use lalo_lao_alo.Abr.Server.{MetricsRequest, stamped, serve_metrics, serve_participant, found}

abbrev prefix : Text
prefix = text "/v1/policy/participant/"

trimmed : (s : Text) → trim_prefix prefix (prefix ++ s) ≡ s
unfolding trim_prefix
trimmed s = refl

-- The path of a participant's policy.
abbrev pub participant_path : Text → Text → Text
participant_path session_id user_id = prefix ++ (session_id ++ b'/' ∷ user_id)

nonempty : (s : Text) → s ≢ [] → is_empty s ≡ false
nonempty [] n = absurd (n refl)
nonempty (c ∷ s) n = refl

read_policy :
    {F : Type 0} (float : Float F) (s u : Text) (e : PolicyEngine F)
    → s ≢ []
    → u ≢ []
    → contains s b'/' ≡ false
    → contains u b'/' ≡ false
    → serve_participant float true (participant_path s u) e
      ≡ found (get_participant_policy float s u e)
unfolding serve_participant
read_policy float s u e n m a b =
    simp (trimmed (s ++ b'/' ∷ u), split_once b'/' s u a b, nonempty s n, nonempty u m)

-- The samples of a participant that the engine has.
abbrev pub samples_of : {F : Type 0} → Option (ParticipantMetrics F) → List (MetricSample F)
samples_of none = []
samples_of (some pm) = pm.samples

decided_on :
    {F : Type 0} (float : Float F) (now : Time) (s u : Text) (ss : List (MetricSample F))
    (e : PolicyEngine F)
    → get_participant_policy float s u (ingest_metrics now s u ss e)
      ≡ evaluate_participant float e.cfg.rules (
          filter
            (is_recent now e.cfg.metric_window_seconds)
            (samples_of (find_metrics e.metrics (key s u)) ++ ss))
unfolding get_participant_policy ingest_metrics
decided_on {F} float now s u ss e =
    simp (find-put e.metrics (key s u) (key s u), text_eq_self (key s u))
      (by_entry (find_metrics e.metrics (key s u)))
  where
    by_entry :
        (o : Option (ParticipantMetrics F))
        → evaluate_participant float e.cfg.rules
            (filter (is_recent now e.cfg.metric_window_seconds) ((known s u now o).samples ++ ss))
          ≡ evaluate_participant float e.cfg.rules
              (filter (is_recent now e.cfg.metric_window_seconds) (samples_of o ++ ss))
    by_entry none = refl
    by_entry (some pm) = refl

-- After a report for a session and a user whose identifiers have no slash, the policy that is read at
-- their path is the decision of the rules on the samples that the engine had of them and then those
-- of the report, each with a time, as far as they lie in the window.
pub reported_policy :
    {F : Type 0} (float : Float F) (now : Time) (req : MetricsRequest F) (e : PolicyEngine F)
    → req.session_id ≢ []
    → req.user_id ≢ []
    → is_empty req.samples ≡ false
    → contains req.session_id b'/' ≡ false
    → contains req.user_id b'/' ≡ false
    → serve_participant float true
        (participant_path req.session_id req.user_id)
        (serve_metrics now true (some req) e).0
      ≡ found (
          evaluate_participant float e.cfg.rules (
            filter (is_recent now e.cfg.metric_window_seconds) (
              samples_of (find_metrics e.metrics (key req.session_id req.user_id))
              ++ map (stamped now) req.samples)))
unfolding serve_metrics
reported_policy float now req e n m l a b =
    rw (nonempty req.session_id n, nonempty req.user_id m, l)
      (read_policy float req.session_id req.user_id
          (ingest_metrics now req.session_id req.user_id (map (stamped now) req.samples) e) n m a b
        ∙ ap found
            (decided_on float now req.session_id req.user_id (map (stamped now) req.samples) e))
