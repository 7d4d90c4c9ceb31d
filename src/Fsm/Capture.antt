-- ===== src/Fsm/Capture.antt =====
-- Decisions that the FSM itself makes: markers, and the signals that carry an error (fsm.go, lines 401 to
-- 444 and 535 to 574).
pub mod Inversion
pub mod Totality
use Prim.Native.String.{◌++◌ as join}
use swf4go.Prelude.{
  ℕ, zero, suc, ◌+◌, ◌%◌, ◌^◌, String, Option, none, some, List, [], ◌∷◌, ◌++◌, map, length,
}
use swf4go.Go.{
  GoError, response, text, Result, ok, err, Exec, returns, panics, ◌>>=◌, deref, of_value,
}
use swf4go.Protocol.ErrorResponse.{error_text}
use swf4go.Protocol.Common.{WorkflowExecution}
use swf4go.Protocol.DecisionType.{record_marker, signal_external_workflow_execution}
use swf4go.Protocol.Decision.{Decision}
use swf4go.Protocol.HistoryEvent.{HistoryEvent}
use swf4go.Protocol.Zero.{zero_decision, zero_signal_external_workflow_execution}
use swf4go.Correlator.{ActivityCorrelator}
use swf4go.Fsm.Outcome.{IntermediateOutcome}
use swf4go.Fsm.Serialization.{
  SerializedState, SerializedDecisionError, SerializedSystemError, Payload, user_data, state,
  decision_error, system_error,
}
use swf4go.Fsm.Machine.{Fsm, state_marker, error_signal, system_error_signal}

-- err.Error()
message : GoError → String
unfolding error_text
message (response r) = error_text r
message (text t) = t

abbrev replicate {ℓ} : {A : Type ℓ} → ℕ → A → List A
replicate zero a = []
replicate (suc n) a = a ∷ replicate n a

-- The slice is made with one zero for each event, and the identifiers are appended to it.
unfoldable pub event_ids : List HistoryEvent → List ℕ
event_ids events = replicate (length events) 0 ++ map (λ e. e.event_id) events

abbrev pub record_string_marker : String → String → Decision
record_string_marker marker_name details = record zero_decision {
  decision_type = record_marker;
  record_marker_decision_attributes =
      some (record { marker_name = marker_name; details = details });
}

-- the decision of captureError, from the details of its marker
abbrev pub error_signal_decision : String → WorkflowExecution → String → Decision
error_signal_decision signal execution details = record zero_decision {
  decision_type = signal_external_workflow_execution;
  signal_external_workflow_execution_decision_attributes =
      some (record zero_signal_external_workflow_execution {
        workflow_id = execution.workflow_id;
        run_id = execution.run_id;
        signal_name = signal;
        input = details;
      });
}

pub marker_of : String → Result String → Result Decision
marker_of marker_name (ok serialized) = ok (record_string_marker marker_name serialized)
marker_of marker_name (err e) = err e

signal_with : String → WorkflowExecution → Result Decision → Exec (List Decision)
unfolding message
signal_with signal execution (err e) =
    panics (of_value (join "giving up, can't even create a RecordMarker decsion: " (message e)))
signal_with signal execution (ok r) = do
  attributes ← deref r.record_marker_decision_attributes
  returns (error_signal_decision signal execution attributes.details ∷ [])

-- A serializer returns "" beside an error; recordStateMarker goes on with it.
unfoldable pub text_or_empty : Result String → String
text_or_empty (ok t) = t
text_or_empty (err e) = ""

pub with_decisions :
    List Decision → SerializedState → Result Decision → Result (List Decision × SerializedState)
with_decisions decisions s (err e) = err e
with_decisions decisions s (ok d) = ok (d ∷ decisions, s)

module _ {ℓ} {V : Type ℓ} where
  -- FSM.recordMarker
  unfoldable pub record_marker_for : Fsm V → String → Payload V → Exec (Result Decision)
  unfolding marker_of
  record_marker_for f marker_name details = do
    s ← deref f.serializer
    r ← s.serialize details
    returns (marker_of marker_name r)

  unfoldable pub capture_error :
      Fsm V → String → WorkflowExecution → Payload V → Exec (List Decision)
  unfolding record_marker_for signal_with
  capture_error f signal execution error = do
    r ← record_marker_for f signal error
    signal_with signal execution r

  -- The event and what follows it in the list stand for `lastEvents[event]` and
  -- `lastEvents[event+1:]`.
  unfoldable pub capture_decision_error :
      Fsm V
      → WorkflowExecution
      → HistoryEvent
      → List HistoryEvent
      → String
      → Option V
      → GoError
      → Exec (List Decision)
  unfolding capture_error event_ids
  capture_decision_error f execution event after state_name state_data e =
      capture_error f error_signal execution (
        decision_error (record {
          error_event_id = event.event_id;
          unprocessed_event_ids = event_ids after;
          state_name = state_name;
          state_data = state_data;
          error = e;
        }))

  unfoldable pub capture_system_error :
      Fsm V → WorkflowExecution → String → List HistoryEvent → GoError → Exec (List Decision)
  unfolding capture_error event_ids
  capture_system_error f execution error_type events e =
      capture_error f system_error_signal execution (
        system_error
          (record { error_type = error_type; error = e; unprocessed_event_ids = event_ids events }))

  unfoldable pub marked_state :
      IntermediateOutcome V → ActivityCorrelator → String → SerializedState
  marked_state outcome pending serialized_data = record {
    replication_data = record {
      state_version = (outcome.state_version + 1) % 2 ^ 64;
      state_name = outcome.state;
      state_data = serialized_data;
    };
    pending_activities = pending;
  }

  unfoldable pub record_state_marker :
      Fsm V
      → IntermediateOutcome V
      → ActivityCorrelator
      → Exec (Result (List Decision × SerializedState))
  unfolding record_marker_for text_or_empty marked_state with_decisions
  record_state_marker f outcome pending = do
    s ← deref f.serializer
    r ← s.serialize (user_data outcome.data_value)
    let marked = marked_state outcome pending (text_or_empty r)
    d ← record_marker_for f state_marker (state marked)
    returns (with_decisions outcome.decisions marked d)
