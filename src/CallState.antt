-- ===== src/CallState.antt =====
-- The state machine of a call: internal/signaling/state.go. The mutex is not modelled: each method
-- runs under it from its first line to its last.
pub mod Diagram
use lalo_lao_alo.Base.{ℕ, List, [], ◌∷◌, Bool, true, false, ◌||◌, ◌==◌, Option, none, some}

-- The named states. `unset` stands for every other text, the zero value "" of the type among them.
pub data CallState : Type 0 where
  unset idle ringing connecting active reconnecting ended cleanup : CallState

-- The position of a state among the constants, by which Go's `==` on them is computed.
abbrev pub index : CallState → ℕ
index unset = 0
index idle = 1
index ringing = 2
index connecting = 3
index active = 4
index reconnecting = 5
index ended = 6
index cleanup = 7

abbrev pub is : CallState → CallState → Bool
is a b = index a == index b

-- The map `validTransitions`; `none` is a key that it lacks.
unfoldable pub valid_transitions : CallState → Option (List CallState)
valid_transitions idle = some (ringing ∷ [])
valid_transitions ringing = some (connecting ∷ ended ∷ [])
valid_transitions connecting = some (active ∷ ended ∷ [])
valid_transitions active = some (reconnecting ∷ ended ∷ [])
valid_transitions reconnecting = some (active ∷ ended ∷ [])
valid_transitions ended = some (cleanup ∷ [])
valid_transitions cleanup = some (idle ∷ [])
valid_transitions unset = none

pub data TransitionError : Type 0 where
  no_transitions : CallState → TransitionError
  invalid : CallState → CallState → TransitionError

pub data Outcome : Type 0 where
  moved : CallState → Outcome
  refused : TransitionError → Outcome

-- The loop of `Transition` over the allowed states.
unfoldable pub pick : CallState → CallState → List CallState → Outcome
pick from to [] = refused (invalid from to)
pick from to (s ∷ rest) =
    let next = pick from to rest in elim (is s to) [ true ↦ moved to | false ↦ next ]

pick_allowed : CallState → CallState → Option (List CallState) → Outcome
unfolding pick
pick_allowed from to none = refused (no_transitions from)
pick_allowed from to (some allowed) = pick from to allowed

-- `Transition`: the new state of the machine, or the error with the state unchanged.
unfoldable pub transition : CallState → CallState → Outcome
unfolding valid_transitions pick_allowed
transition from to = pick_allowed from to (valid_transitions from)

unfoldable pub occurs : CallState → List CallState → Bool
occurs to [] = false
occurs to (s ∷ rest) = is s to || occurs to rest

occurs_allowed : CallState → Option (List CallState) → Bool
unfolding occurs
occurs_allowed to none = false
occurs_allowed to (some allowed) = occurs to allowed

-- `CanTransition`.
unfoldable pub can_transition : CallState → CallState → Bool
unfolding valid_transitions occurs_allowed
can_transition from to = occurs_allowed to (valid_transitions from)

-- `IsTerminal`.
unfoldable pub is_terminal : CallState → Bool
is_terminal s = is s ended || is s cleanup

-- A machine driven by a list of requests: a refused one leaves the state as it is.
abbrev settle : CallState → Outcome → CallState
settle s (moved t) = t
settle s (refused e) = s

unfoldable pub drive : CallState → List CallState → CallState
unfolding transition
drive s [] = s
drive s (to ∷ rest) = drive (settle s (transition s to)) rest
