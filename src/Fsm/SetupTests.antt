-- ===== src/Fsm/SetupTests.antt =====
-- The sample FSM set up, started, continued and answered.
use swf4go.Prelude.{ℕ, String, ◌≡◌, refl, ◌⊎◌, Option, none, some, List, [], ◌∷◌, ◌++◌}
use swf4go.Prelude.Map.{lookup}
use swf4go.Go.{GoError, Result, ok, returns, panics}
use swf4go.Protocol.Decision.{Decision}
use swf4go.Protocol.Zero.{zero_decision}
use swf4go.Protocol.Workers.{PollForDecisionTaskResponse, RespondDecisionTaskCompletedRequest}
use swf4go.Protocol.Kinesis.{PutRecordRequest, PutRecordResponse}
use swf4go.Fsm.Serialization.{SerializedState, user_data}
use swf4go.Fsm.Context.{FsmContext, FsmState, new_fsm_context, continue_workflow_decision}
use swf4go.Fsm.Machine.{Fsm, state_marker, serialize, fsm_serializer}
use swf4go.Fsm.Capture.{record_string_marker}
use swf4go.Fsm.History.{is_state_marker, find_serialized_state}
use swf4go.Fsm.Setup.{add_state, add_initial_state, init, start_input}
use swf4go.Fsm.Setup.Registered.{SetUp, IsInitialized, init-IsInitialized}
use swf4go.Fsm.Setup.Restart.{plain_state, find-start_input, find-continue_workflow_decision}
use swf4go.Fsm.Replication.{KinesisReplicator, record_of, completion, handle_decision_task}
use swf4go.Fsm.Replication.Order.{Call, responded, put, recording, handle_decision_task-calls}
use swf4go.Fsm.Replication.Put.{Put}
use swf4go.Fsm.Tick.{tick}
use swf4go.Fsm.Samples.Codec.{put_ℕ, put_state}
use swf4go.Fsm.Samples.{
  numbers, numbers_read_back, working, failing, counter, saved, started, signaled, task,
}

abbrev bare : Fsm ℕ
bare = record counter { states = none; initial_state = none; error_state = none; serializer = none }

abbrev ready : Fsm ℕ
unfolding add_state add_initial_state init
ready = elim (init numbers (add_state (add_initial_state bare working) failing)) [
  | returns g ↦ g
  | panics p ↦ bare
]

no_state : (s : FsmState ℕ) → none ≡ some s → ⊥
no_state s e = cc

init-IsInitialized_example : IsInitialized ready
unfolding init add_state add_initial_state
init-IsInitialized_example =
    init-IsInitialized numbers bare (add_state (add_initial_state bare working) failing) ready
      (record {
        initial = λ s e. absurd (no_state s e);
        error = λ s e. absurd (no_state s e);
        complete = λ s e. absurd (no_state s e);
      })
      (SetUp.state failing (SetUp.initial working SetUp.begin)) refl

abbrev fresh_input : String
unfolding start_input numbers put_ℕ put_state
fresh_input = elim (start_input numbers (some 3)) [ returns t ↦ t | panics p ↦ "" ]

find-start_input_example :
    (t : String) × (numbers.serialize (user_data (some 3)) ≡ returns (ok t))
    × (find_serialized_state counter (signaled 2 "a" ∷ started fresh_input ∷ [])
        ≡ returns (ok (plain_state 0 "working" t)))
unfolding is_state_marker start_input numbers put_ℕ put_state
find-start_input_example =
    find-start_input counter numbers refl numbers_read_back working (some 3) fresh_input
      (started fresh_input) (signaled 2 "a" ∷ []) [] refl refl
      (record { type = refl; attributes = _; has_attributes = refl; given = refl })
      ((refl, λ e. cc), tt)

abbrev here : FsmContext ℕ
unfolding new_fsm_context
here =
    new_fsm_context (fsm_serializer counter) (record { name = "counter"; version = "1" })
      (record { run_id = "run"; workflow_id = "counter-1" }) (record { activities = none })
      "working" (some 3) 6

abbrev continuation : Decision
unfolding here continue_workflow_decision fsm_serializer new_fsm_context serialize numbers put_ℕ
    put_state
continuation = elim (continue_workflow_decision here "working") [
  | returns d ↦ d
  | panics p ↦ zero_decision
]

abbrev continued_input : String
unfolding put_ℕ put_state
continued_input = put_state (plain_state 6 "working" (put_ℕ 3 ""))

find-continue_workflow_decision_example :
    (t : String) × (numbers.serialize (user_data (some 3)) ≡ returns (ok t))
    × (find_serialized_state counter (signaled 2 "a" ∷ started continued_input ∷ [])
        ≡ returns (ok (plain_state 6 "working" t)))
unfolding is_state_marker new_fsm_context continue_workflow_decision fsm_serializer serialize
    numbers put_ℕ put_state
find-continue_workflow_decision_example =
    find-continue_workflow_decision counter numbers refl numbers_read_back here "working"
      continuation _ (started continued_input) (signaled 2 "a" ∷ []) [] refl refl refl refl
      (record { type = refl; attributes = _; has_attributes = refl; given = refl })
      ((refl, λ e. cc), tt)

abbrev streaming : Fsm ℕ
streaming = record counter { kinesis_stream = "states" }

abbrev two_events : PollForDecisionTaskResponse
unfolding put_state
two_events = task (signaled 4 "a" ∷ started (put_state saved) ∷ [])

abbrev counted : SerializedState
counted = record {
  replication_data = record { state_version = 7; state_name = "working"; state_data = "111110" };
  pending_activities = record { activities = some [] };
}

abbrev counted_text : String
unfolding put_state
counted_text = put_state counted

abbrev accepts : RespondDecisionTaskCompletedRequest → Option GoError
accepts r = none

abbrev stores : PutRecordRequest → Result PutRecordResponse
stores r = ok (record { sequence_number = "1"; shard_id = "shard" })

-- A replicator that puts a second time.
abbrev twice : KinesisReplicator (List Call)
twice fsm workflow_id put_once w = put_once (put_once w).1

abbrev stored_record : PutRecordRequest
stored_record = record_of streaming (recording accepts stores) twice two_events "111110"

abbrev calls : List Call
calls =
    responded
      (completion two_events (record_string_marker state_marker counted_text ∷ []) (some counted))
    ∷ put stored_record
    ∷ put stored_record
    ∷ []

answered :
    handle_decision_task streaming (recording accepts stores) twice two_events [] ≡ returns calls
unfolding handle_decision_task tick numbers put_state lookup
answered = refl

handle_decision_task-calls_example :
    (ds : List Decision) × (new : Option SerializedState) × (tick streaming two_events
      ≡ returns (ds, new))
    × (let request = completion two_events ds new in
        let sent = [] ++ responded request ∷ [] in
        (calls ≡ sent)
        ⊎ ((accepts request ≡ none)
            × Put streaming (recording accepts stores) twice two_events new sent calls))
handle_decision_task-calls_example =
    handle_decision_task-calls streaming two_events accepts stores twice [] calls answered
