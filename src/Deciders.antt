-- ===== src/Deciders.antt =====
-- Deciders made of deciders (deciders.go, lines 10 to 70), and the one that continues workflows (lines
-- 198 to 274). Those that `Typed` builds are below.
pub mod Composition
pub mod Continuations
pub mod Reflect
pub mod Typed
mod Tests
use swf4go.Prelude.{Option, none, some, List, [], ◌∷◌, ◌++◌}
use swf4go.Go.{Exec, returns, ◌>>=◌}
use swf4go.Protocol.Decision.{Decision}
use swf4go.Protocol.HistoryEvent.{HistoryEvent}
use swf4go.Fsm.Outcome.{
  Outcome, continue_outcome, transition_outcome, stay_outcome, complete_outcome, error_outcome,
  outcome_data, outcome_decisions, outcome_state,
}
use swf4go.Fsm.Context.{Decider, FsmContext, stay}

module _ {ℓ} {V : Type ℓ} where
  -- What the loop does with an outcome: go on with its data and decisions, or return.
  pub contribute :
      Option (Outcome V)
      → Option V
      → List Decision
      → (Option V → List Decision → Exec (Option (Outcome V)))
      → Exec (Option (Outcome V))
  contribute none value decisions next = next value decisions
  contribute (some (continue_outcome v ds)) value decisions next = next v (decisions ++ ds)
  contribute (some (stay_outcome v ds)) value decisions next =
      returns (some (stay_outcome v (decisions ++ ds)))
  contribute (some o) value decisions next = returns (
      some
        (transition_outcome (outcome_data o) (outcome_state o) (decisions ++ outcome_decisions o)))

  -- The loop over the deciders, with the data and the decisions so far.
  pub decide_with :
      List (Decider V)
      → FsmContext V
      → HistoryEvent
      → Option V
      → List Decision
      → Exec (Option (Outcome V))
  unfolding contribute
  decide_with [] ctx h value decisions = returns (some (continue_outcome value decisions))
  decide_with (d ∷ ds) ctx h value decisions = do
    outcome ← d ctx h value
    contribute outcome value decisions (λ v more. decide_with ds ctx h v more)

  -- NewComposedDecider, and Decide of the decider that it makes
  unfoldable pub composed_decider : List (Decider V) → Decider V
  unfolding decide_with
  composed_decider deciders ctx h value = decide_with deciders ctx h value []

  unfoldable pub default_decider : Decider V
  default_decider ctx h value = returns (some (stay ctx value []))
