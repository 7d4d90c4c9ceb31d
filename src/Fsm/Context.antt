-- ===== src/Fsm/Context.antt =====
-- The context that deciders are called with, and its helpers (fsm_models.go, lines 13 to 17, 124 to 130
-- and 215 to 368). A decider is a function of its arguments: what it returns as data stands for what
-- the program's decider returns or writes through its pointer.
use swf4go.Prelude.{ℕ, String, Option, none, some, List, [], ◌∷◌, ◌++◌}
use swf4go.Prelude.Map.{Map}
use swf4go.Go.{Exec, returns, ◌>>=◌}
use swf4go.Protocol.Common.{WorkflowType, WorkflowExecution}
use swf4go.Protocol.DecisionType.{complete_workflow_execution, continue_as_new_workflow_execution}
use swf4go.Protocol.Decision.{Decision}
use swf4go.Protocol.HistoryEvent.{HistoryEvent}
use swf4go.Protocol.Zero.{zero_decision, zero_continue_as_new_workflow_execution}
use swf4go.Correlator.{ActivityInfo, ActivityCorrelator, track, activity_type}
use swf4go.Fsm.Outcome.{
  Outcome, continue_outcome, transition_outcome, stay_outcome, complete_outcome, error_outcome,
  error_state,
}
use swf4go.Fsm.Serialization.{Payload, user_data, state, StateSerializer, FsmSerializer}

pub record FsmContext {ℓ} (V : Type ℓ) : Type ℓ where
  pub serialization : FsmSerializer V
  pub workflow_type : WorkflowType
  pub workflow_execution : WorkflowExecution
  pub pending_activities : ActivityCorrelator
  pub state : String
  pub state_data : Option V
  pub state_version : ℕ  -- uint64

abbrev pub Decider {ℓ} : Type ℓ → Type ℓ
Decider V = FsmContext V → HistoryEvent → Option V → Exec (Option (Outcome V))

pub record FsmState {ℓ} (V : Type ℓ) : Type ℓ where
  pub name : String
  pub decider : Decider V

module _ {ℓ} {V : Type ℓ} where
  unfoldable pub new_fsm_context :
      FsmSerializer V
      → WorkflowType
      → WorkflowExecution
      → ActivityCorrelator
      → String
      → Option V
      → ℕ
      → FsmContext V
  new_fsm_context serialization wf_type wf_exec pending name value version = record {
    serialization = serialization;
    workflow_type = wf_type;
    workflow_execution = wf_exec;
    pending_activities = pending;
    state = name;
    state_data = value;
    state_version = version;
  }

  -- EventData, Serialize, Serializer, Deserialize, EmptyDecisions and StateVersion
  abbrev pub read_event_data : FsmContext V → HistoryEvent → Option V → Exec (Option V)
  read_event_data ctx h target = ctx.serialization.event_data h target

  abbrev pub serialize_value : FsmContext V → Payload V → Exec String
  serialize_value ctx value = ctx.serialization.serialize value

  abbrev pub serializer_of : FsmContext V → Option (StateSerializer V)
  serializer_of ctx = ctx.serialization.state_serializer

  abbrev pub deserialize_value : FsmContext V → String → V → Exec V
  deserialize_value ctx text target = ctx.serialization.deserialize text target

  abbrev pub empty_decisions : FsmContext V → List Decision
  empty_decisions ctx = []

  abbrev pub state_version_of : FsmContext V → ℕ
  state_version_of ctx = ctx.state_version

  abbrev pub continue_decision : FsmContext V → Option V → List Decision → Outcome V
  continue_decision ctx value decisions = continue_outcome value decisions

  abbrev pub stay : FsmContext V → Option V → List Decision → Outcome V
  stay ctx value decisions = stay_outcome value decisions

  abbrev pub goto : FsmContext V → String → Option V → List Decision → Outcome V
  goto ctx name value decisions = transition_outcome value name decisions

  abbrev pub error : FsmContext V → Option V → List Decision → Outcome V
  error ctx value decisions = error_outcome error_state value decisions

  -- A panic of the serializer is the decider's.
  unfoldable pub completion_decision : FsmContext V → Option V → Exec Decision
  completion_decision ctx value = do
    result ← serialize_value ctx (user_data value)
    returns (record zero_decision {
      decision_type = complete_workflow_execution;
      complete_workflow_execution_decision_attributes = some (record { result = result });
    })

  unfoldable pub complete : FsmContext V → Option V → List Decision → Exec (Outcome V)
  unfolding completion_decision
  complete ctx value decisions = do
    last ← completion_decision ctx value
    returns (complete_outcome value (decisions ++ last ∷ []))

  unfoldable pub continue_workflow_decision : FsmContext V → String → Exec Decision
  continue_workflow_decision ctx continued_state = do
    state_data ← serialize_value ctx (user_data ctx.state_data)
    input ← serialize_value ctx (
        state (record {
          replication_data = record {
            state_name = continued_state;
            state_data = state_data;
            state_version = ctx.state_version;
          };
          pending_activities = record { activities = none };
        }))
    returns (record zero_decision {
      decision_type = continue_as_new_workflow_execution;
      continue_as_new_workflow_execution_decision_attributes =
          some (record zero_continue_as_new_workflow_execution { input = input });
    })

  -- Decide: the decider's outcome, and the context with the event tracked.
  unfoldable pub decide :
      FsmContext V → HistoryEvent → Option V → Decider V → Exec (Option (Outcome V) × FsmContext V)
  decide ctx h value decider = do
    outcome ← decider ctx h value
    pending ← track ctx.pending_activities h
    returns (outcome, record ctx { pending_activities = pending })

  -- ActivityInfo and ActivitiesInfo
  unfoldable pub activity_info :
      FsmContext V → HistoryEvent → Exec (Option ActivityInfo × ActivityCorrelator)
  activity_info ctx h = activity_type ctx.pending_activities h

  abbrev pub activities_info : FsmContext V → Option (Map ActivityInfo)
  activities_info ctx = ctx.pending_activities.activities
