-- ===== src/Abr/Ticks.antt =====
-- The life of the policy engine of internal/abr/policy_engine.go: starts, stops and ticks. Where a tick
-- is ready and the channel is closed, a loop's `select` takes either, so that a loop may evaluate
-- after a stop, until it returns.
use lalo_lao_alo.Base.{
  ℕ, zero, suc, Bool, true, false, List, [], ◌∷◌, ◌++◌, Option, none, some, ◌==◌, if◌then◌else◌,
}
use lalo_lao_alo.Abr.{Float}
use lalo_lao_alo.Abr.Engine.{PolicyEngine, PolicyUpdate, start, stop, loop_return, evaluate_all}

pub data Command : Type 0 where
  start_it stop_it tick loop_returns : Command

abbrev pub pushed : List PolicyUpdate → Option (List PolicyUpdate) → Option (List PolicyUpdate)
pushed us none = none
pushed us (some vs) = some (us ++ vs)

module _ {F : Type 0} where
  -- One of the loops, if there is one, takes a tick.
  unfoldable pub ticked : Float F → PolicyEngine F → List PolicyUpdate
  ticked float e = if e.loops == 0 then [] else evaluate_all float e

  abbrev pub and_run :
      Option (PolicyEngine F)
      → (PolicyEngine F → Option (List PolicyUpdate))
      → Option (List PolicyUpdate)
  and_run none f = none
  and_run (some e) f = f e

  -- The updates that are pushed, or `none` for a panic.
  unfoldable pub run : Float F → List Command → PolicyEngine F → Option (List PolicyUpdate)
  run float [] e = some []
  run float (start_it ∷ cs) e = run float cs (start e)
  run float (stop_it ∷ cs) e = and_run (stop e) (run float cs)
  run float (tick ∷ cs) e = pushed (ticked float e) (run float cs e)
  run float (loop_returns ∷ cs) e = run float cs (loop_return e)

-- Ticks and returns only.
abbrev pub all_waiting : List Command → Bool
all_waiting [] = true
all_waiting (tick ∷ cs) = all_waiting cs
all_waiting (loop_returns ∷ cs) = all_waiting cs
all_waiting (c ∷ cs) = false

abbrev pub returns : ℕ → List Command
returns zero = []
returns (suc n) = loop_returns ∷ returns n
