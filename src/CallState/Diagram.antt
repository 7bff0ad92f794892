-- ===== src/CallState/Diagram.antt =====
-- The transition diagram of internal/signaling/state.go, and what holds along every path in it.
use lalo_lao_alo.Base.{List, [], ◌∷◌, Bool, true, false, ◌≡◌, ◌≢◌, ◌↔◌, ◌⊎◌, inl, inr, refl, arith}
use lalo_lao_alo.CallState.{
  CallState, unset, idle, ringing, connecting, active, reconnecting, ended, cleanup, is, Outcome,
  TransitionError, moved, refused, transition, can_transition, settle, drive, occurs,
}

infix 40 ◌⟶◌
pub data ◌⟶◌ : CallState → CallState → Type 0 where
  ring : idle ⟶ ringing
  answer : ringing ⟶ connecting
  unanswered : ringing ⟶ ended
  connect : connecting ⟶ active
  unconnected : connecting ⟶ ended
  lose : active ⟶ reconnecting
  hang_up : active ⟶ ended
  resume : reconnecting ⟶ active
  give_up : reconnecting ⟶ ended
  clean : ended ⟶ cleanup
  reset : cleanup ⟶ idle

ruleset edges =
    (ring, answer, unanswered, connect, unconnected, lose, hang_up, resume, give_up, clean, reset)

edge-of-can : (s t : CallState) → can_transition s t ≡ true → s ⟶ t
unfolding can_transition
edge-of-can s t h = grind (arith, edges)

can-of-edge : {s t : CallState} → s ⟶ t → can_transition s t ≡ true
unfolding can_transition
can-of-edge ring = refl
can-of-edge _ = refl

-- `CanTransition` is true exactly on the edges of the diagram.
can_transition-iff-⟶ : (s t : CallState) → (can_transition s t ≡ true) ↔ (s ⟶ t)
can_transition-iff-⟶ s t = (edge-of-can s t, can-of-edge)

-- `Transition` succeeds exactly where `CanTransition` says so, and then moves to the state asked for.
pub transition-can_transition :
    (s t : CallState) → (transition s t ≡ moved t) ↔ (can_transition s t ≡ true)
unfolding transition can_transition
transition-can_transition s t = (λ h. ground arith, λ h. ground arith)

-- A success never lands in a state other than the one asked for.
pub transition-moved : (s t u : CallState) → transition s t ≡ moved u → u ≡ t
unfolding transition
transition-moved s t u h = ground arith

pub transition-unset : (t : CallState) → transition unset t ≢ moved t
unfolding transition
transition-unset t h = ground arith

-- The two ways that `Transition` ends.
pub transition_cases :
    (s t : CallState)
    → (transition s t ≡ moved t) ⊎ ((e : TransitionError) × (transition s t ≡ refused e))
transition_cases s t = go (transition s t) refl
  where
    go :
        (o : Outcome)
        → transition s t ≡ o
        → (transition s t ≡ moved t) ⊎ ((e : TransitionError) × (transition s t ≡ refused e))
    go (moved u) h = inl (rw (transition-moved s t u h) at h)
    go (refused e) h = inr (e, h)

-- A call is live from the moment it rings until it ends.
abbrev pub is_live : CallState → Bool
is_live ringing = true
is_live connecting = true
is_live active = true
is_live reconnecting = true
is_live _ = false

-- `Transition` to ENDED succeeds exactly from the live states.
pub live-iff-can_end : (s : CallState) → (is_live s ≡ true) ↔ (transition s ended ≡ moved ended)
unfolding transition
live-iff-can_end s = (λ h. ground arith, λ h. ground arith)

stays_over :
    (s t : CallState)
    → is_live s ≡ false
    → (is t ringing ≡ true) ⊎ (is_live (settle s (transition s t)) ≡ false)
unfolding transition
stays_over s t h = ground arith

-- A step other than to RINGING makes nothing live.
pub live-back :
    (s t : CallState)
    → transition s t ≡ moved t
    → is t ringing ≡ false
    → is_live t ≡ true
    → is_live s ≡ true
unfolding transition
live-back s t h n l = ground arith

-- From a state that is not live no sequence of requests makes the machine live again unless the
-- sequence asks for RINGING.
drive-needs_ringing :
    (s : CallState) (requests : List CallState)
    → is_live s ≡ false
    → is_live (drive s requests) ≡ true
    → occurs ringing requests ≡ true
unfolding drive occurs
drive-needs_ringing s [] h l = cc
drive-needs_ringing s (t ∷ rest) h l = elim (stays_over s t h) [
  | inl asked ↦ ground arith
  | inr over ↦ ground (arith, drive-needs_ringing (settle s (transition s t)) rest over l)
]
