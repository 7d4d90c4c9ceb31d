-- ===== src/Fsm/Machine.antt =====
-- The FSM's own record and its serialization (fsm.go, lines 10 to 62, 70 to 73, 245 to 265 and 446 to
-- 476). The Kinesis replicator, the shutdown manager and the channels are in Control; the client is an
-- argument of the operations that use it.
use Prim.Native.String.{String}
use swf4go.Prelude.{◌≡◌, refl, Bool, Option, none, some, ◌==◌, if◌then◌else◌}
use swf4go.Prelude.Map.{Map}
use swf4go.Go.{Exec, returns, panics, ◌>>=◌, deref, must, of_value}
use swf4go.Protocol.EventType.{
  EventType, activity_task_completed, child_workflow_execution_failed, workflow_execution_completed,
  child_workflow_execution_completed, workflow_execution_signaled, workflow_execution_started,
  workflow_execution_continued_as_new,
}
use swf4go.Protocol.HistoryEvent.{HistoryEvent}
use swf4go.Fsm.Serialization.{Payload, StateSerializer, FsmSerializer}
use swf4go.Fsm.Context.{FsmState}

abbrev pub state_marker : String
state_marker = "FSM.State"

abbrev pub error_signal : String
error_signal = "FSM.Error"

abbrev pub system_error_signal : String
system_error_signal = "FSM.SystemError"

abbrev pub continue_timer : String
continue_timer = "FSM.ContinueWorkflow"

abbrev pub continue_signal : String
continue_signal = "FSM.ContinueWorkflow"

pub record Fsm {ℓ} (V : Type ℓ) : Type ℓ where
  pub name : String
  pub domain : String
  pub task_list : String
  pub identity : String
  -- what `reflect.New` makes of the type of `DataType`; `none` if DataType is nil
  pub data_type : Option V
  pub serializer : Option (StateSerializer V)
  pub kinesis_stream : String
  pub states : Option (Map (FsmState V))
  pub initial_state : Option (FsmState V)
  pub error_state : Option (FsmState V)
  pub complete_state : Option (FsmState V)
  pub allow_panics : Bool

-- The `switch` of EventData: the text that the event carries, or "".
unfoldable pub event_payload : EventType → HistoryEvent → Exec String
event_payload activity_task_completed h = do
  attributes ← deref h.activity_task_completed_event_attributes
  returns attributes.result
event_payload child_workflow_execution_failed h = do
  attributes ← deref h.activity_task_failed_event_attributes
  returns attributes.details
event_payload workflow_execution_completed h = do
  attributes ← deref h.workflow_execution_completed_event_attributes
  returns attributes.result
event_payload child_workflow_execution_completed h = do
  attributes ← deref h.child_workflow_execution_completed_event_attributes
  returns attributes.result
event_payload workflow_execution_signaled h = do
  attributes ← deref h.workflow_execution_signaled_event_attributes
  returns attributes.input
event_payload workflow_execution_started h = do
  attributes ← deref h.workflow_execution_started_event_attributes
  returns attributes.input
event_payload workflow_execution_continued_as_new h = do
  attributes ← deref h.workflow_execution_continued_as_new_event_attributes
  returns attributes.input
event_payload _ h = returns ""

module _ {ℓ} {V : Type ℓ} where
  -- reflect.New(reflect.TypeOf(f.DataType)), which panics on a nil type
  unfoldable pub new_data : Fsm V → Exec V
  new_data f = elim f.data_type [
    | some v ↦ returns v
    | none ↦ panics (of_value "reflect: New(nil)")
  ]

  pub new_data-returns : (f : Fsm V) {v : V} → f.data_type ≡ some v → new_data f ≡ returns v
  unfolding new_data
  new_data-returns f e = rw e refl

  pub new_data-eq-returns : (f : Fsm V) {v : V} → new_data f ≡ returns v → f.data_type ≡ some v
  unfolding new_data
  new_data-eq-returns f h = made f.data_type h
    where
      made :
          (o : Option V) {v : V}
          → (elim o as (λ _. Exec V) [
            | some v ↦ returns v
            | none ↦ panics (of_value "reflect: New(nil)")
          ])
            ≡ returns v
          → o ≡ some v
      made none h = cc
      made (some v) h = cc

  -- FSM.Serialize and FSM.Deserialize panic on an error.
  unfoldable pub serialize : Fsm V → Payload V → Exec String
  serialize f value = do s ← deref f.serializer; r ← s.serialize value; must r

  unfoldable pub deserialize : Fsm V → String → V → Exec V
  deserialize f text target = do s ← deref f.serializer; r ← s.deserialize text target; must r

  unfoldable pub initial_state_name : Fsm V → Exec String
  initial_state_name f = do initial ← deref f.initial_state; returns initial.name

  deserialize_payload : Fsm V → String → V → Exec (Option V)
  unfolding deserialize
  deserialize_payload f payload target =
      if payload == ""
      then panics (of_value "event payload was empty")
      else (do v ← deserialize f payload target; returns (some v))

  unfoldable pub event_data : Fsm V → HistoryEvent → Option V → Exec (Option V)
  unfolding event_payload deserialize_payload
  event_data f h none = returns none
  event_data f h (some target) = do
    payload ← event_payload h.event_type h
    deserialize_payload f payload target

  -- The FSM as the `FSMSerializer` of its contexts.
  unfoldable pub fsm_serializer : Fsm V → FsmSerializer V
  unfolding event_data serialize deserialize initial_state_name
  fsm_serializer f = record {
    event_data = event_data f;
    serialize = serialize f;
    state_serializer = f.serializer;
    deserialize = deserialize f;
    initial_state = initial_state_name f;
  }
