-- ===== src/Abr/Keys.antt =====
-- The keys of the metrics in internal/abr/policy_engine.go.
use lalo_lao_alo.Base.{◌≡◌, refl, false, List, [], ◌∷◌, some, contains, if◌then◌else◌, arith}
use mathlib.Core.List.{append_assoc}
use lalo_lao_alo.Common.{Time}
use lalo_lao_alo.Text.{Text, text_eq, text_eq_iff}
use lalo_lao_alo.Abr.{Float, MetricSample, ParticipantMetrics}
use lalo_lao_alo.Abr.Engine.{
  Metrics, PolicyEngine, key, find_metrics, put_metrics, ingest_metrics, get_participant_policy,
}

-- Room names with no colon keep the keys apart.
pub key_injective :
    (r r' i i' : Text)
    → contains r b':' ≡ false
    → contains r' b':' ≡ false
    → key r i ≡ key r' i'
    → (r ≡ r') × (i ≡ i')
key_injective [] [] i i' a b e = (refl, cc)
key_injective [] (c ∷ r') i i' a b e = ground (arith, e)
key_injective (c ∷ r) [] i i' a b e = ground (arith, e)
key_injective (c ∷ r) (d ∷ r') i i' a b e =
    let (p, q) = key_injective r r' i i' (ground arith) (ground arith) (cc) in (cc, q)

module _ {F : Type 0} where
  pub find-put :
      (ms : Metrics F) (k j : Text) (pm : ParticipantMetrics F)
      → find_metrics (put_metrics ms k pm) j ≡ (if text_eq k j then some pm else find_metrics ms j)
  unfolding find_metrics put_metrics
  find-put [] k j pm = refl
  find-put ((l, pm') ∷ ms) k j pm =
      ground (arith, find-put ms k j pm, text_eq_iff l k, text_eq_iff l j, text_eq_iff k j)

-- Samples of one participant leave the policy of another as it was, if the names of both rooms have
-- no colon.
ingest_separate :
    {F : Type 0} (float : Float F) (now : Time) (r r' i i' : Text) (ss : List (MetricSample F))
    (e : PolicyEngine F)
    → contains r b':' ≡ false
    → contains r' b':' ≡ false
    → ((r ≡ r') × (i ≡ i') → ⊥)
    → get_participant_policy float r' i' (ingest_metrics now r i ss e)
      ≡ get_participant_policy float r' i' e
unfolding ingest_metrics get_participant_policy
ingest_separate float now r r' i i' ss e a b n =
    let apart : text_eq (key r i) (key r' i') ≡ false =
      ground (arith, text_eq_iff (key r i) (key r' i'), key_injective r r' i i' a b, n) in
    rw (find-put e.metrics (key r i) (key r' i') _, apart) refl

-- The samples of a participant whose identity has a colon count for another one too: what is stored
-- for `x:i` in the room `r` decides the policy of `i` in the room `r:x`.
key_collision :
    {F : Type 0} (float : Float F) (r x i : Text) (e : PolicyEngine F)
    → get_participant_policy float r (key x i) e ≡ get_participant_policy float (key r x) i e
unfolding get_participant_policy
key_collision float r x i e = rw (append_assoc r (b':' ∷ x) (b':' ∷ i)) refl
