-- ===== src/Fsm/Execution/Tests.antt =====
-- The sample FSM over two decision tasks.
use swf4go.Prelude.{ℕ, String, ◌+◌, ◌%◌, ◌^◌, ◌≡◌, refl, some, [], ◌∷◌, reverse, keep}
use swf4go.Prelude.Map.{lookup}
use swf4go.Go.{ok, returns}
use swf4go.Protocol.Workers.{PollForDecisionTaskResponse}
use swf4go.Fsm.Serialization.{SerializedState}
use swf4go.Fsm.Machine.{state_marker}
use swf4go.Fsm.Capture.{record_string_marker}
use swf4go.Fsm.History.{is_state_marker, find_serialized_state}
use swf4go.Fsm.History.Scan.{is_new, is_error}
use swf4go.Fsm.Tick.{tick}
use swf4go.Fsm.Samples.Codec.{put_state}
use swf4go.Fsm.Samples.{
  numbers, numbers_read_back, counter, saved, started, signaled, marked, task, task_started,
}
use swf4go.Fsm.Samples.Attributes.{
  started-HasAttributes, signaled-HasAttributes, marked-HasAttributes, task_started-HasAttributes,
}
use swf4go.Fsm.Execution.{
  Execution, first, next, Replays, Execution-Replays, Execution-state_version,
}

abbrev state_of : ℕ → String → SerializedState
state_of version text = record {
  replication_data = record { state_version = version; state_name = "working"; state_data = text };
  pending_activities = record { activities = some [] };
}

abbrev first_task : PollForDecisionTaskResponse
unfolding put_state
first_task = task (task_started 6 ∷ signaled 5 "b" ∷ started (put_state saved) ∷ [])

abbrev text_of_first : String
unfolding put_state
text_of_first = put_state (state_of 7 "111110")

abbrev second_task : PollForDecisionTaskResponse
unfolding put_state
second_task =
    record (task (
      task_started 10
      ∷ signaled 9 "c"
      ∷ marked 8 text_of_first
      ∷ task_started 6
      ∷ signaled 5 "b"
      ∷ started (put_state saved)
      ∷ [])) { previous_started_event_id = 6 }

abbrev text_of_second : String
unfolding put_state
text_of_second = put_state (state_of 8 "1111110")

first_tick :
    tick counter first_task
    ≡ returns (record_string_marker state_marker text_of_first ∷ [], some (state_of 7 "111110"))
unfolding tick numbers put_state lookup
first_tick = refl

second_tick :
    tick counter second_task
    ≡ returns (record_string_marker state_marker text_of_second ∷ [], some (state_of 8 "1111110"))
unfolding tick numbers put_state lookup
second_tick = refl

found_first : find_serialized_state counter first_task.events ≡ returns (ok saved)
unfolding find_serialized_state numbers put_state
found_first = refl

first_execution :
    Execution counter saved first_task.events
      (record_string_marker state_marker text_of_first)
      (state_of 7 "111110")
      1
unfolding first_task is_error
first_execution =
    first
      (record {
        events = refl;
        attributes = (
          task_started-HasAttributes 6,
          (signaled-HasAttributes 5 "b", (started-HasAttributes _, tt)),
        );
        unseen = (refl, (refl, (refl, tt)));
        previous = tt;
        no_errors = refl;
      })
      found_first first_tick

second_execution :
    Execution counter saved second_task.events
      (record_string_marker state_marker text_of_second)
      (state_of 8 "1111110")
      2
unfolding first_task second_task is_error is_state_marker
second_execution =
    next (task_started 10 ∷ signaled 9 "c" ∷ []) [] (marked 8 text_of_first) first_execution
      (record {
        events = refl;
        attributes = (
          task_started-HasAttributes 10,
          (signaled-HasAttributes 9 "c", (marked-HasAttributes 8 _, tt)),
        );
        unseen = (refl, (refl, (refl, tt)));
        previous = refl;
        no_errors = refl;
      })
      (record {
        type = refl;
        asked = _;
        decided = refl;
        attributes = _;
        recorded = refl;
        name = refl;
        details = refl;
      })
      ((refl, λ e. cc), ((refl, λ e. cc), tt)) second_tick

Execution-Replays_example :
    Replays counter saved (reverse (keep is_new second_task.events)) (state_of 8 "1111110")
Execution-Replays_example =
    Execution-Replays counter numbers refl numbers_read_back saved second_execution

Execution-state_version_example : 8 ≡ (6 + 2) % 2 ^ 64
Execution-state_version_example =
    Execution-state_version counter numbers refl numbers_read_back saved second_execution
