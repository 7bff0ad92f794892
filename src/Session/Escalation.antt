-- ===== src/Session/Escalation.antt =====
-- The choice of the media path: internal/session/topology.go.
use lalo_lao_alo.Base.{ℕ, Bool, true, false, ◌&&◌, ltb, leb, if◌then◌else◌, ◌≡◌, arith}
use lalo_lao_alo.Session.{Topology, p2p, turn, sfu}

unfoldable pub decide_topology : ℕ → Topology
decide_topology participant_count = if leb participant_count 2 then p2p else sfu

abbrev pub is_sfu : Topology → Bool
is_sfu sfu = true
is_sfu _ = false

abbrev pub is_p2p : Topology → Bool
is_p2p p2p = true
is_p2p _ = false

abbrev pub is_turn : Topology → Bool
is_turn turn = true
is_turn _ = false

unfoldable pub should_escalate_to_sfu : Topology → ℕ → Bool
should_escalate_to_sfu current new_participant_count =
    if is_sfu current then false else ltb 2 new_participant_count

unfoldable pub should_fallback_to_turn : Topology → Bool → Bool
should_fallback_to_turn current ice_failed = is_p2p current && ice_failed

-- The path after a join, as `JoinSession` computes it.
abbrev pub escalated : Topology → ℕ → Topology
escalated t n = if should_escalate_to_sfu t n then sfu else t

-- The path after the escalation check: what `DecideTopology` says where more than two people are
-- in the call, and the path that it had where there are at most two.
escalated_lem : (t : Topology) (n : ℕ) → escalated t n ≡ (if ltb 2 n then decide_topology n else t)
unfolding should_escalate_to_sfu decide_topology
escalated_lem t n = ground arith
