-- ===== src/Fsm/Samples.antt =====
-- A small FSM over numbers, with a serializer that reads back what it wrote: in `working` it adds one for
-- each event, and a signal named "boom" makes its decider panic.
pub mod Codec
pub mod Attributes
use swf4go.Prelude.{
  ℕ, suc, String, ◌≡◌, refl, sym, ap, ◌∙◌, true, false, Option, none, some, List, [], ◌∷◌, ◌==◌,
  if◌then◌else◌,
}
use swf4go.Go.{
  Result, ok, err, text, Exec, returns, panics, of_value, ok-injective, returns-injective,
}
use swf4go.Protocol.EventType.{
  EventType, workflow_execution_started, workflow_execution_signaled, marker_recorded,
  decision_task_started,
}
use swf4go.Protocol.HistoryEvent.{HistoryEvent}
use swf4go.Protocol.Workers.{PollForDecisionTaskResponse}
use swf4go.Protocol.Zero.{
  zero_history_event, zero_workflow_execution_started, zero_workflow_execution_signaled,
  zero_marker_recorded,
}
use swf4go.Fsm.Outcome.{Outcome, stay_outcome, error_outcome}
use swf4go.Fsm.Serialization.{
  SerializedState, StateSerializer, Payload, user_data, state, replication, decision_error,
  system_error,
}
use swf4go.Fsm.Context.{FsmContext, FsmState}
use swf4go.Fsm.Machine.{Fsm}
use Codec.{put_ℕ, get_ℕ, put_state, get_state, get-put_state}

abbrev write : Payload ℕ → Result String
unfolding put_ℕ put_state
write (user_data none) = ok ""
write (user_data (some n)) = ok (put_ℕ n "")
write (state s) = ok (put_state s)
write (replication r) = ok r.state_data
write (decision_error e) = ok "decision error"
write (system_error e) = ok e.error_type

abbrev or_error {ℓ} : {A : Type ℓ} → Option A → Result A
or_error none = err (text "unexpected end of input")
or_error (some a) = ok a

number_of : Option (ℕ × String) → Option ℕ
number_of none = none
number_of (some (n, rest)) = some n

unfoldable pub numbers : StateSerializer ℕ
unfolding put_ℕ get_ℕ put_state get_state number_of
numbers = record {
  serialize = λ p. returns (write p);
  deserialize = λ t target. returns (or_error (number_of (get_ℕ t)));
  deserialize_state = λ t. returns (or_error (get_state t));
  deserialize_decision_error = λ t. returns (err (text "not readable"));
  deserialize_system_error = λ t. returns (err (text "not readable"));
}

pub numbers_read_back :
    (x : SerializedState) (t : String)
    → numbers.serialize (state x) ≡ returns (ok t)
    → numbers.deserialize_state t ≡ returns (ok x)
unfolding numbers
numbers_read_back x t h = rw (← ok-injective (returns-injective h)) (rw (get-put_state x))

abbrev pub plus_one : Option ℕ → Option ℕ
plus_one none = some 1
plus_one (some n) = some (suc n)

abbrev pub on_signal : Option ℕ → String → Exec (Option (Outcome ℕ))
on_signal v name =
    if name == "boom"
    then panics (of_value "boom")
    else returns (some (stay_outcome (plus_one v) []))

abbrev work : HistoryEvent → Option ℕ → Exec (Option (Outcome ℕ))
work h v = elim h.workflow_execution_signaled_event_attributes [
  | some a ↦ on_signal v a.signal_name
  | none ↦ returns (some (stay_outcome (plus_one v) []))
]

abbrev pub working : FsmState ℕ
working = record { name = "working"; decider = λ ctx h v. work h v }

abbrev pub failing : FsmState ℕ
failing = record {
  name = "error";
  decider = λ ctx h v. returns (some (error_outcome "error" v []));
}

abbrev pub counter : Fsm ℕ
counter = record {
  name = "counter";
  domain = "test";
  task_list = "counters";
  identity = "";
  data_type = some 0;
  serializer = some numbers;
  kinesis_stream = "";
  states = some (("working", working) ∷ ("error", failing) ∷ []);
  initial_state = some working;
  error_state = some failing;
  complete_state = none;
  allow_panics = false;
}

-- An execution that starts in `working` with 3, at version 6.
abbrev pub saved : SerializedState
saved = record {
  replication_data = record { state_version = 6; state_name = "working"; state_data = "1110" };
  pending_activities = record { activities = none };
}

abbrev pub started : String → HistoryEvent
started input = record zero_history_event {
  event_id = 1;
  event_type = workflow_execution_started;
  workflow_execution_started_event_attributes =
      some (record zero_workflow_execution_started { input = input });
}

abbrev pub signaled : ℕ → String → HistoryEvent
signaled id name = record zero_history_event {
  event_id = id;
  event_type = workflow_execution_signaled;
  workflow_execution_signaled_event_attributes =
      some (record zero_workflow_execution_signaled { signal_name = name });
}

abbrev pub marked : ℕ → String → HistoryEvent
marked id details = record zero_history_event {
  event_id = id;
  event_type = marker_recorded;
  marker_recorded_event_attributes =
      some (record zero_marker_recorded { marker_name = "FSM.State"; details = details });
}

abbrev pub task : List HistoryEvent → PollForDecisionTaskResponse
task events = record {
  events = events;
  next_page_token = "";
  previous_started_event_id = 0;
  started_event_id = 0;
  task_token = "token";
  workflow_execution = record { run_id = "run"; workflow_id = "counter-1" };
  workflow_type = record { name = "counter"; version = "1" };
}

abbrev pub task_started : ℕ → HistoryEvent
task_started id = record zero_history_event { event_id = id; event_type = decision_task_started }
