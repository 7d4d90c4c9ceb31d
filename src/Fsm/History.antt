-- ===== src/Fsm/History.antt =====
-- Reading the history of a decision task, newest event first (fsm.go, lines 483 to 533 and 581 to 596).
pub mod Finding
pub mod Scan
use swf4go.Prelude.{
  ℕ, String, Bool, true, false, not, ◌||◌, Option, none, some, List, [], ◌∷◌, ◌++◌, ◌==◌, eqb,
  if◌then◌else◌,
}
use swf4go.Go.{Result, ok, err, errors_new, Exec, returns, ◌>>=◌, deref}
use swf4go.Protocol.EventType.{
  EventType, workflow_execution_started, decision_task_completed, decision_task_scheduled,
  decision_task_started, marker_recorded, workflow_execution_signaled,
}
use swf4go.Protocol.HistoryEvent.{HistoryEvent}
use swf4go.Fsm.Serialization.{SerializedState, StateSerializer}
use swf4go.Fsm.Machine.{Fsm, state_marker, error_signal, system_error_signal, initial_state_name}

is_marker_named : EventType → HistoryEvent → Exec Bool
is_marker_named marker_recorded h = do
  attributes ← deref h.marker_recorded_event_attributes
  returns (attributes.marker_name == state_marker)
is_marker_named _ h = returns false

unfoldable pub is_state_marker : HistoryEvent → Exec Bool
unfolding is_marker_named
is_state_marker h = is_marker_named h.event_type h

is_signal_named : EventType → HistoryEvent → Exec Bool
is_signal_named workflow_execution_signaled h = do
  attributes ← deref h.workflow_execution_signaled_event_attributes
  returns (attributes.signal_name == system_error_signal || attributes.signal_name == error_signal)
is_signal_named _ h = returns false

unfoldable pub is_error_signal : HistoryEvent → Exec Bool
unfolding is_signal_named
is_error_signal h = is_signal_named h.event_type h

-- Where the loop of findLastEvents puts an event.
pub data Place : Type 0 where
  skipped last_event error_event : Place

-- The `switch` of findLastEvents.
unfoldable pub place : EventType → HistoryEvent → Exec Place
unfolding is_state_marker is_error_signal
place decision_task_completed h = returns skipped
place decision_task_scheduled h = returns skipped
place decision_task_started h = returns skipped
place marker_recorded h = do
  marker ← is_state_marker h
  returns (if marker then skipped else last_event)
place workflow_execution_signaled h = do
  error ← is_error_signal h
  returns (if error then error_event else last_event)
place _ h = returns last_event

add_last : Place → HistoryEvent → List HistoryEvent → List HistoryEvent
add_last last_event h hs = hs ++ h ∷ []
add_last _ h hs = hs

add_error : Place → HistoryEvent → List HistoryEvent → List HistoryEvent
add_error error_event h hs = hs ++ h ∷ []
add_error _ h hs = hs

-- The loop of findLastEvents, over the two slices that it appends to.
scan :
    ℕ
    → List HistoryEvent
    → List HistoryEvent
    → List HistoryEvent
    → Exec (List HistoryEvent × List HistoryEvent)
unfolding place add_last add_error
scan prev_started last_events error_events [] = returns (last_events, error_events)
scan prev_started last_events error_events (h ∷ hs) =
    let rest : Exec (List HistoryEvent × List HistoryEvent) = do
      p ← place h.event_type h
      scan prev_started (add_last p h last_events) (add_error p h error_events) hs
    in if eqb h.event_id prev_started then returns (last_events, error_events) else rest

unfoldable pub find_last_events :
    ℕ → List HistoryEvent → Exec (List HistoryEvent × List HistoryEvent)
unfolding scan
find_last_events prev_started events = scan prev_started [] [] events

module _ {ℓ} {V : Type ℓ} where
  -- The initial state's name in place of an empty one.
  name_initial : Fsm V → Result SerializedState → Exec (Result SerializedState)
  unfolding initial_state_name
  name_initial f (err e) = returns (err e)
  name_initial f (ok s) =
      if s.replication_data.state_name == ""
      then (do
        name ← initial_state_name f
        returns
            (ok (record s { replication_data = record s.replication_data { state_name = name } })))
      else returns (ok s)

  pub started_state : EventType → Fsm V → HistoryEvent → Exec (Option (Result SerializedState))
  unfolding name_initial
  started_state workflow_execution_started f h = do
    s ← deref f.serializer
    attributes ← deref h.workflow_execution_started_event_attributes
    r ← s.deserialize_state attributes.input
    found ← name_initial f r
    returns (some found)
  started_state _ f h = returns none

  -- What findSerializedState returns at this event, if it returns there.
  pub state_at : Fsm V → HistoryEvent → Bool → Exec (Option (Result SerializedState))
  unfolding started_state
  state_at f h true = do
    s ← deref f.serializer
    attributes ← deref h.marker_recorded_event_attributes
    r ← s.deserialize_state attributes.details
    returns (some r)
  state_at f h false = started_state h.event_type f h

  -- The state in the newest marker, or in the input of the execution, whichever is met first.
  unfoldable pub find_serialized_state : Fsm V → List HistoryEvent → Exec (Result SerializedState)
  unfolding is_state_marker state_at
  find_serialized_state f [] = returns (err (errors_new "Cant Find Current Data"))
  find_serialized_state f (h ∷ hs) = do
    marker ← is_state_marker h
    found ← state_at f h marker
    elim found [ some r ↦ returns r | none ↦ find_serialized_state f hs ]
