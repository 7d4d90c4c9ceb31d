-- ===== src/Fsm/Tests.antt =====
-- Decision tasks of the sample FSM, and the theorems on `Tick` at them.
use swf4go.Prelude.{
  ℕ, suc, false, ◌==◌, String, ◌≡◌, refl, sym, ap, some-injective, none, some, List, [], ◌∷◌,
}
use swf4go.Prelude.Map.{lookup}
use swf4go.Go.{ok, returns, returns-injective}
use swf4go.Protocol.Decision.{Decision}
use swf4go.Protocol.HistoryEvent.{HistoryEvent}
use swf4go.Correlator.{ActivityCorrelator, track}
use swf4go.Fsm.Outcome.{stay_outcome, transition_outcome, outcome_data}
use swf4go.Fsm.Serialization.{SerializedState}
use swf4go.Fsm.Context.{FsmState, new_fsm_context}
use swf4go.Fsm.Machine.{Fsm, state_marker, error_signal}
use swf4go.Fsm.Capture.{record_string_marker, marked_state, text_or_empty, error_signal_decision}
use swf4go.Fsm.History.{is_state_marker, find_last_events, find_serialized_state}
use swf4go.Fsm.Tick.{Loop, tick}
use swf4go.Fsm.Tick.Marker.{find-tick}
use swf4go.Fsm.Tick.Runs.{Decided, halt, step}
use swf4go.Fsm.Tick.Refinement.{Ticked, restored_loop, tick-Ticked, Ticked-tick}
use swf4go.Fsm.Tick.Version.{state_version-tick, state_version-error}
use swf4go.Fsm.Tick.Signals.{tick-EndsInSignal}
use swf4go.Fsm.Tick.Signals.Steps.{EndsInSignal}
use swf4go.Fsm.Samples.{
  numbers, numbers_read_back, working, failing, counter, saved, started, signaled, marked, task,
}
use swf4go.Fsm.Samples.Codec.{put_state}

abbrev input : String
unfolding put_state
input = put_state saved

abbrev events : List HistoryEvent
events = signaled 5 "b" ∷ signaled 4 "a" ∷ started input ∷ []

abbrev after : SerializedState
after = record {
  replication_data = record { state_version = 7; state_name = "working"; state_data = "1111110" };
  pending_activities = record { activities = some [] };
}

abbrev after_text : String
unfolding put_state
after_text = put_state after

two_signals_count :
    tick counter (task events)
    ≡ returns (record_string_marker state_marker after_text ∷ [], some after)
unfolding tick numbers put_state lookup
two_signals_count = refl

find-tick_example :
    find_serialized_state counter (signaled 9 "c" ∷ marked 8 after_text ∷ events)
    ≡ returns (ok after)
unfolding is_state_marker
find-tick_example =
    find-tick counter (task events) numbers refl numbers_read_back
      (record_string_marker state_marker after_text) [] after (marked 8 after_text)
      (signaled 9 "c" ∷ []) events two_signals_count
      (record {
        type = refl;
        asked = _;
        decided = refl;
        attributes = _;
        recorded = refl;
        name = refl;
        details = refl;
      })
      ((refl, λ h. cc), tt)

scanned : find_last_events 0 events ≡ returns (events, [])
unfolding find_last_events
scanned = refl

found : find_serialized_state counter events ≡ returns (ok saved)
unfolding find_serialized_state numbers put_state
found = refl

state_version-tick_example : after.replication_data.state_version ≡ 7
state_version-tick_example =
    state_version-tick counter (task events) events saved after _ scanned found two_signals_count

tick-Ticked_example :
    Ticked counter
      (task events)
      events
      saved
      (record_string_marker state_marker after_text ∷ [])
      after
tick-Ticked_example =
    tick-Ticked counter (task events) events saved scanned found _ after two_signals_count

abbrev tracked : ActivityCorrelator
tracked = record { activities = some [] }

start_tracked : track (record { activities = none }) (started input) ≡ returns tracked
unfolding track
start_tracked = refl

signal_tracked : (id : ℕ) (name : String) → track tracked (signaled id name) ≡ returns tracked
unfolding track
signal_tracked id name = refl

-- the loop after an event, where the count was n before it
abbrev counted : ℕ → Loop ℕ
counted n =
    let l = restored_loop counter (task events) saved (suc n) in
    (l.0, record l.1 { state = "working"; state_data = some n; pending_activities = tracked })

first-Decided :
    Decided counter (started input) (restored_loop counter (task events) saved 3) (counted 3)
unfolding new_fsm_context lookup
first-Decided = record {
  state = working;
  outcome = stay_outcome (some 4) [];
  pending = tracked;
  has_state = refl;
  decided = refl;
  tracked = start_tracked;
  result = refl;
}

signal-Decided :
    (id n : ℕ) (name : String)
    → (name == "boom") ≡ false
    → Decided counter (signaled id name) (counted n) (counted (suc n))
unfolding new_fsm_context lookup
signal-Decided id n name q = record {
  state = working;
  outcome = stay_outcome (some (suc (suc n))) [];
  pending = tracked;
  has_state = refl;
  decided = rw q refl;
  tracked = signal_tracked id name;
  result = refl;
}

run_of_two_signals :
    Ticked counter
      (task events)
      events
      saved
      (record_string_marker state_marker after_text ∷ [])
      after
unfolding marked_state numbers put_state new_fsm_context text_or_empty
run_of_two_signals = record {
  serializer = numbers;
  fresh = 0;
  value = 3;
  after = counted 5;
  written = _;
  details = after_text;
  has_serializer = refl;
  has_data_type = refl;
  data_read = refl;
  data_written = refl;
  run =
      step first-Decided
        (step (signal-Decided 4 3 "a" refl) (step (signal-Decided 5 4 "b" refl) halt));
  new_state = refl;
  serialized = refl;
  decisions = refl;
}

Ticked-tick_example :
    tick counter (task events)
    ≡ returns (record_string_marker state_marker after_text ∷ [], some after)
Ticked-tick_example =
    Ticked-tick counter (task events) events saved scanned found _ after run_of_two_signals

-- A recovery in the error state, from an error signal.
abbrev recovering : FsmState ℕ
recovering = record failing {
  decider = λ ctx h v. returns (some (transition_outcome v "working" []));
}

abbrev recoverable : Fsm ℕ
recoverable = record counter { error_state = some recovering }

abbrev broken : List HistoryEvent
broken = signaled 6 error_signal ∷ events

abbrev recovered : SerializedState
recovered = record {
  replication_data = record { state_version = 1; state_name = "working"; state_data = "1110" };
  pending_activities = record { activities = some [] };
}

abbrev recovered_text : String
unfolding put_state
recovered_text = put_state recovered

scanned_broken : find_last_events 0 broken ≡ returns (events, signaled 6 error_signal ∷ [])
unfolding find_last_events
scanned_broken = refl

recovers :
    tick recoverable (task broken)
    ≡ returns (record_string_marker state_marker recovered_text ∷ [], some recovered)
unfolding tick numbers put_state lookup
recovers = refl

state_version-error_example : recovered.replication_data.state_version ≡ 1
state_version-error_example =
    state_version-error recoverable (task broken) recovering refl
      (λ context e x o h. (x, ap outcome_data (some-injective (sym (returns-injective h)))))
      (signaled 6 error_signal) [] events recovered _ scanned_broken recovers

abbrev panicking : List HistoryEvent
panicking = signaled 5 "b" ∷ signaled 4 "boom" ∷ started input ∷ []

abbrev signal : Decision
signal = error_signal_decision error_signal (task panicking).workflow_execution "decision error"

boom : tick counter (task panicking) ≡ returns (signal ∷ [], none)
unfolding tick numbers put_state lookup
boom = refl

tick-EndsInSignal_example : EndsInSignal (task panicking).workflow_execution (signal ∷ [])
tick-EndsInSignal_example = tick-EndsInSignal counter (task panicking) (signal ∷ []) boom
