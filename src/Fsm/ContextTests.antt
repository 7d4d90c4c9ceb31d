-- ===== src/Fsm/ContextTests.antt =====
-- What a decider reads and writes through its context.
use swf4go.Prelude.{ℕ, none, some, [], ◌≡◌, refl}
use swf4go.Go.{returns, panics, of_value, ◌>>=◌}
use swf4go.Fsm.Outcome.{stay_outcome}
use swf4go.Fsm.Serialization.{user_data}
use swf4go.Fsm.Context.{
  FsmContext, new_fsm_context, read_event_data, serialize_value, deserialize_value, empty_decisions,
  state_version_of, stay,
}
use swf4go.Fsm.Machine.{fsm_serializer}
use swf4go.Fsm.Samples.{numbers, counter, started}

abbrev here : FsmContext ℕ
unfolding new_fsm_context
here =
    new_fsm_context (fsm_serializer counter) (record { name = "counters"; version = "1" })
      (record { run_id = ""; workflow_id = "w" }) (record { activities = none }) "working" (some 3)
      6

version_read : state_version_of here ≡ 6
unfolding here
version_read = refl

-- The input of the start is read as the data.
input_read : read_event_data here (started "110") (some 0) ≡ returns (some 2)
unfolding here new_fsm_context fsm_serializer numbers
input_read = refl

-- Nothing is read without a target, and an event without a payload is a panic.
nothing_read : read_event_data here (started "") none ≡ returns none
unfolding here new_fsm_context fsm_serializer numbers
nothing_read = refl

empty_read :
    read_event_data here (started "") (some 0) ≡ panics (of_value "event payload was empty")
unfolding here new_fsm_context fsm_serializer numbers
empty_read = refl

stayed : stay here (some 4) (empty_decisions here) ≡ stay_outcome (some 4) []
stayed = refl

-- What is serialized is deserialized again.
read_back :
    (do t ← serialize_value here (user_data (some 2)); deserialize_value here t 0) ≡ returns 2
unfolding here new_fsm_context fsm_serializer numbers
read_back = refl
