-- ===== src/Fsm/Setup.antt =====
-- Setting up an FSM, and the inputs that start and continue its workflows (fsm.go, lines 64 to 183 and
-- 612 to 639). JSONStateSerializer is the argument `json`, since it only calls a package.
pub mod Registered
pub mod Restart
use swf4go.Prelude.{String, Bool, Option, none, some, List, [], ◌∷◌, ◌==◌, if◌then◌else◌}
use swf4go.Prelude.Map.{Map, insert}
use swf4go.Go.{Exec, returns, panics, ◌>>=◌, deref, must, of_value}
use swf4go.Protocol.EventType.{EventType, workflow_execution_signaled}
use swf4go.Protocol.DecisionType.{DecisionType, record_marker}
use swf4go.Protocol.Decision.{Decision}
use swf4go.Protocol.HistoryEvent.{HistoryEvent}
use swf4go.Fsm.Outcome.{Outcome, complete_state, error_state}
use swf4go.Fsm.Serialization.{Payload, user_data, state, StateSerializer}
use swf4go.Fsm.Context.{Decider, FsmContext, FsmState, error, complete}
use swf4go.Fsm.Machine.{Fsm, state_marker, error_signal, system_error_signal}

abbrev pub entries_of {ℓ} : {V : Type ℓ} → Option (Map V) → Map V
entries_of none = []
entries_of (some m) = m

module _ {ℓ} {V : Type ℓ} where
  unfoldable pub add_state : Fsm V → FsmState V → Fsm V
  unfolding insert
  add_state f s = record f { states = some (insert s.name s (entries_of f.states)) }

  unfoldable pub add_initial_state : Fsm V → FsmState V → Fsm V
  unfolding add_state
  add_initial_state f s = record (add_state f s) { initial_state = some s }

  unfoldable pub add_error_state : Fsm V → FsmState V → Fsm V
  unfolding add_state
  add_error_state f s = record (add_state f s) { error_state = some s }

  unfoldable pub add_complete_state : Fsm V → FsmState V → Fsm V
  unfolding add_state
  add_complete_state f s = record (add_state f s) { complete_state = some s }

  -- The two error signals are read, for the log; a panic of the serializer is the decider's.
  read_error : Option (StateSerializer V) → String → String → Exec {0} Unit
  read_error serializer signal input =
      let system = (do
        s ← deref serializer
        r ← s.deserialize_system_error input
        e ← must r
        returns tt) in
      let rest = if signal == system_error_signal then system else returns tt in
      if signal == error_signal
      then (do s ← deref serializer; r ← s.deserialize_decision_error input; e ← must r; returns tt)
      else rest

  handle_error : Option (StateSerializer V) → EventType → HistoryEvent → Exec {0} Unit
  unfolding read_error
  handle_error serializer workflow_execution_signaled h = do
    attributes ← deref h.workflow_execution_signaled_event_attributes
    read_error serializer attributes.signal_name attributes.input
  handle_error serializer _ h = returns tt

  -- `serializer` is that of the FSM when the decider is called.
  unfoldable pub default_error_state : Option (StateSerializer V) → FsmState V
  unfolding handle_error
  default_error_state serializer = record {
    name = error_state;
    decider = λ ctx h value. (do
      _ ← handle_error serializer h.event_type h
      returns (some (error ctx value [])));
  }

  unfoldable pub default_complete_state : FsmState V
  unfolding complete
  default_complete_state = record {
    name = complete_state;
    decider = λ ctx h value. (do o ← complete ctx value []; returns (some o));
  }

  or_default : Option (StateSerializer V) → StateSerializer V → StateSerializer V
  or_default none json = json
  or_default (some s) json = s

  with_error_state : Option (FsmState V) → Fsm V → FsmState V → Fsm V
  unfolding add_error_state
  with_error_state none f s = add_error_state f s
  with_error_state (some _) f s = f

  with_complete_state : Option (FsmState V) → Fsm V → FsmState V → Fsm V
  unfolding add_complete_state
  with_complete_state none f s = add_complete_state f s
  with_complete_state (some _) f s = f

  -- What Init does to the fields of `Fsm`.
  initialized : StateSerializer V → Fsm V → Fsm V
  unfolding with_error_state with_complete_state default_error_state default_complete_state
      or_default
  initialized json f =
      let serializer = some (or_default f.serializer json) in
      let g = with_error_state f.error_state f (default_error_state serializer) in
      record (with_complete_state g.complete_state g default_complete_state) {
        serializer = serializer;
      }

  init_from : Option (FsmState V) → StateSerializer V → Fsm V → Exec (Fsm V)
  unfolding initialized
  init_from none json f = panics (of_value "No Initial State Defined For FSM")
  init_from (some _) json f = returns (initialized json f)

  unfoldable pub init : StateSerializer V → Fsm V → Exec (Fsm V)
  unfolding init_from
  init json f = init_from f.initial_state json f

  -- StartFSMWorkflowInput
  unfoldable pub start_input : StateSerializer V → Option V → Exec String
  start_input s value = do
    written ← s.serialize (user_data value)
    state_data ← must written
    r ← s.serialize (
        state (record {
          replication_data = record { state_version = 0; state_name = ""; state_data = state_data };
          pending_activities = record { activities = none };
        }))
    must r

  -- ContinueFSMWorkflowInput
  unfoldable pub continue_input : FsmContext V → Option V → Exec String
  continue_input ctx value = do
    state_data ← ctx.serialization.serialize (user_data value)
    name ← ctx.serialization.initial_state
    ctx.serialization.serialize (
        state (record {
          replication_data = record {
            state_version = ctx.state_version;
            state_name = name;
            state_data = state_data;
          };
          pending_activities = record { activities = none };
        }))

-- d.DecisionType == DecisionTypeRecordMarker && its marker's name is StateMarker
marker_details : DecisionType → Decision → Exec (Option String)
marker_details record_marker d = do
  attributes ← deref d.record_marker_decision_attributes
  returns (if attributes.marker_name == state_marker then some attributes.details else none)
marker_details _ d = returns none

unfoldable pub state_from_decisions : List Decision → Exec String
unfolding marker_details
state_from_decisions [] = returns ""
state_from_decisions (d ∷ ds) = do
  details ← marker_details d.decision_type d
  elim details [ some t ↦ returns t | none ↦ state_from_decisions ds ]
