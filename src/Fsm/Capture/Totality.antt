-- ===== src/Fsm/Capture/Totality.antt =====
-- Panics of the captures (fsm.go, lines 401 to 444 and 535 to 555).
use swf4go.Prelude.{String, ◌≡◌, refl, Option, some, List}
use swf4go.Go.{GoError, ok, returns, Returns, bind-Returns}
use swf4go.Protocol.Common.{WorkflowExecution}
use swf4go.Protocol.HistoryEvent.{HistoryEvent}
use swf4go.Correlator.{ActivityCorrelator}
use swf4go.Fsm.Outcome.{IntermediateOutcome}
use swf4go.Fsm.Serialization.{
  SerializedState, SerializedDecisionError, SerializedSystemError, StateSerializer, Payload,
  user_data, state, decision_error, system_error,
}
use swf4go.Fsm.Machine.{Fsm}
use swf4go.Fsm.Capture.{
  marker_of, signal_with, record_marker_for, capture_error, capture_decision_error,
  capture_system_error, record_state_marker,
}

module _ {ℓ} {V : Type ℓ} where
  -- The serializer writes every error of the FSM's own.
  pub record WritesErrors (s : StateSerializer V) : Type ℓ where
    pub decision :
        (e : SerializedDecisionError V)
        → (t : String) × (s.serialize (decision_error e) ≡ returns (ok t))
    pub system :
        (e : SerializedSystemError) → (t : String) × (s.serialize (system_error e) ≡ returns (ok t))

  -- A serializer that does not panic on states and data, though it may fail, and that reads what it is
  -- given without a panic.
  pub record IsCalm (s : StateSerializer V) : Type ℓ where
    pub writes_data : (v : Option V) → Returns (s.serialize (user_data v))
    pub writes_states : (x : SerializedState) → Returns (s.serialize (state x))
    pub reads_data : (t : String) (v : V) → Returns (s.deserialize t v)
    pub reads_states : (t : String) → Returns (s.deserialize_state t)

  module _ (f : Fsm V) (s : StateSerializer V) (has_serializer : f.serializer ≡ some s)
      (execution : WorkflowExecution) where
    capture_error-Returns :
        (signal : String) (p : Payload V) (t : String)
        → s.serialize p ≡ returns (ok t)
        → Returns (capture_error f signal execution p)
    unfolding capture_error record_marker_for marker_of signal_with
    capture_error-Returns signal p t e = rw (has_serializer, e) (_, refl)

    pub capture_decision_error-Returns :
        WritesErrors s
        → (e : HistoryEvent) (after : List HistoryEvent) (name : String) (v : Option V)
          (error : GoError)
        → Returns (capture_decision_error f execution e after name v error)
    unfolding capture_decision_error
    capture_decision_error-Returns w e after name v error =
        let (t, p) = w.decision _ in capture_error-Returns _ _ t p

    pub capture_system_error-Returns :
        WritesErrors s
        → (type : String) (events : List HistoryEvent) (error : GoError)
        → Returns (capture_system_error f execution type events error)
    unfolding capture_system_error
    capture_system_error-Returns w type events error =
        let (t, p) = w.system _ in capture_error-Returns _ _ t p

    pub record_state_marker-Returns :
        IsCalm s
        → (outcome : IntermediateOutcome V) (pending : ActivityCorrelator)
        → Returns (record_state_marker f outcome pending)
    unfolding record_state_marker record_marker_for
    record_state_marker-Returns calm outcome pending = rw has_serializer (
        bind-Returns (s.serialize (user_data outcome.data_value)) _
          (calm.writes_data outcome.data_value)
          (λ r _.
            bind-Returns _ _
              (bind-Returns (s.serialize (state _)) _ (calm.writes_states _) (λ d _. (_, refl)))
              (λ d _. (_, refl))))
