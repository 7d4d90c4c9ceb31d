-- ===== src/Fsm/Serialization.antt =====
-- What the FSM persists, and the serializer that it is given (fsm_models.go, lines 132 to 162 and 205 to
-- 213; fsm.go, lines 607 to 610).
use swf4go.Prelude.{ℕ, String, Option, List}
use swf4go.Go.{GoError, Result, Exec}
use swf4go.Protocol.HistoryEvent.{HistoryEvent}
use swf4go.Correlator.{ActivityCorrelator}

pub record ReplicationData : Type 0 where
  pub state_version : ℕ  -- uint64
  pub state_name : String
  pub state_data : String

pub record SerializedState : Type 0 where
  pub replication_data : ReplicationData
  pub pending_activities : ActivityCorrelator

pub record SerializedDecisionError {ℓ} (V : Type ℓ) : Type ℓ where
  pub error_event_id : ℕ
  pub unprocessed_event_ids : List ℕ
  pub state_name : String
  pub state_data : Option V
  pub error : GoError

pub record SerializedSystemError : Type 0 where
  pub error_type : String
  pub error : GoError
  pub unprocessed_event_ids : List ℕ

-- The values that reach `Serialize(state interface{})`.
pub data Payload {ℓ} (V : Type ℓ) : Type ℓ where
  user_data : Option V → Payload V
  state : SerializedState → Payload V
  replication : ReplicationData → Payload V
  decision_error : SerializedDecisionError V → Payload V
  system_error : SerializedSystemError → Payload V

-- StateSerializer, whose methods may also panic. `Deserialize` is given a pointer: its types here are the user's (with the value that
-- the pointer leads to), and fresh structs of the FSM's own.
pub record StateSerializer {ℓ} (V : Type ℓ) : Type ℓ where
  pub serialize : Payload V → Exec (Result String)
  pub deserialize : String → V → Exec (Result V)
  pub deserialize_state : String → Exec (Result SerializedState)
  pub deserialize_decision_error : String → Exec (Result (SerializedDecisionError V))
  pub deserialize_system_error : String → Exec (Result SerializedSystemError)

-- FSMSerializer: what a context knows of its FSM.
pub record FsmSerializer {ℓ} (V : Type ℓ) : Type ℓ where
  pub event_data : HistoryEvent → Option V → Exec (Option V)
  pub serialize : Payload V → Exec String
  pub state_serializer : Option (StateSerializer V)
  pub deserialize : String → V → Exec V
  pub initial_state : Exec String
