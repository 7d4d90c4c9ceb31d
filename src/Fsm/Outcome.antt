-- ===== src/Fsm/Outcome.antt =====
-- What a decider returns (fsm_models.go, lines 19 to 119), and how `Tick` merges it (fsm.go, lines 372
-- to 378). `V` holds the user's data, and `none` is a nil `interface{}`. A nil `Outcome`, called
-- `Pass`, is the `none` of `Option (Outcome V)`.
use swf4go.Prelude.{ℕ, String, Option, none, List, [], ◌++◌}
use swf4go.Go.{Exec, returns, ◌>>=◌, deref}
use swf4go.Protocol.Decision.{Decision}

abbrev pub complete_state : String
complete_state = "complete"

abbrev pub error_state : String
error_state = "error"

-- One constructor for each type that implements `Outcome`, with its fields.
pub data Outcome {ℓ} (V : Type ℓ) : Type ℓ where
  continue_outcome : Option V → List Decision → Outcome V
  transition_outcome : Option V → String → List Decision → Outcome V
  stay_outcome : Option V → List Decision → Outcome V
  complete_outcome : Option V → List Decision → Outcome V
  error_outcome : String → Option V → List Decision → Outcome V

pub record IntermediateOutcome {ℓ} (V : Type ℓ) : Type ℓ where
  pub state_version : ℕ
  pub state : String
  pub data_value : Option V
  pub decisions : List Decision

module _ {ℓ} {V : Type ℓ} where
  abbrev pub pass : Option (Outcome V)
  pass = none

  -- Outcome.Data
  abbrev pub outcome_data : Outcome V → Option V
  outcome_data (continue_outcome v ds) = v
  outcome_data (transition_outcome v s ds) = v
  outcome_data (stay_outcome v ds) = v
  outcome_data (complete_outcome v ds) = v
  outcome_data (error_outcome s v ds) = v

  -- Outcome.Decisions
  abbrev pub outcome_decisions : Outcome V → List Decision
  outcome_decisions (continue_outcome v ds) = ds
  outcome_decisions (transition_outcome v s ds) = ds
  outcome_decisions (stay_outcome v ds) = ds
  outcome_decisions (complete_outcome v ds) = ds
  outcome_decisions (error_outcome s v ds) = ds

  -- Outcome.State
  abbrev pub outcome_state : Outcome V → String
  outcome_state (continue_outcome v ds) = ""
  outcome_state (transition_outcome v s ds) = s
  outcome_state (stay_outcome v ds) = ""
  outcome_state (complete_outcome v ds) = complete_state
  outcome_state (error_outcome s v ds) = "error"

  -- new(intermediateOutcome)
  abbrev pub zero_outcome : IntermediateOutcome V
  zero_outcome = record { state_version = 0; state = ""; data_value = none; decisions = [] }

  -- the state after the outcome, where the state before it is given
  abbrev pub merged_state : Outcome V → String → String
  merged_state (stay_outcome v ds) current = current
  merged_state o current = outcome_state o

  -- A nil outcome is dereferenced.
  unfoldable pub merge_outcomes :
      IntermediateOutcome V → Option (Outcome V) → Exec (IntermediateOutcome V)
  merge_outcomes final intermediate = do
    o ← deref intermediate
    returns (record final {
      decisions = final.decisions ++ outcome_decisions o;
      data_value = outcome_data o;
      state = merged_state o final.state;
    })
