-- ===== src/Fsm/Tick.antt =====
-- FSM.Tick: one decision task (fsm.go, lines 267 to 399). A loop that counts down over a slice is a
-- recursion on the reversed list; `older` is the part of the slice behind the current event.
pub mod Stages
pub mod Marker
pub mod Runs
pub mod Refinement
pub mod Complete
pub mod Version
pub mod Signals
pub mod Total
pub mod Protobuf
use swf4go.Prelude.{
  ℕ, String, Bool, true, false, ◌&&◌, Option, none, some, List, [], ◌∷◌, ◌++◌, reverse, ◌==◌,
  if◌then◌else◌,
}
use swf4go.Prelude.Map.{Map, lookup}
use swf4go.Go.{
  GoError, errors_new, Result, ok, err, Panic, of_error, of_value, Exec, returns, panics, ◌>>=◌,
  deref,
}
use swf4go.Protocol.Common.{WorkflowExecution}
use swf4go.Protocol.Decision.{Decision}
use swf4go.Protocol.HistoryEvent.{HistoryEvent}
use swf4go.Protocol.Workers.{PollForDecisionTaskResponse}
use swf4go.Correlator.{ActivityCorrelator, track}
use swf4go.Fsm.Outcome.{Outcome, IntermediateOutcome, zero_outcome, merge_outcomes}
use swf4go.Fsm.Serialization.{SerializedState, StateSerializer}
use swf4go.Fsm.Context.{FsmContext, FsmState, new_fsm_context, decide}
use swf4go.Fsm.Machine.{Fsm, new_data, fsm_serializer}
use swf4go.Fsm.History.{find_last_events, find_serialized_state}
use swf4go.Fsm.Capture.{capture_decision_error, capture_system_error, record_state_marker}

-- The error that panicSafeDecide makes of a recovered panic.
pub panic_error : Panic → GoError
panic_error (of_error e) = e
panic_error (of_value v) = errors_new "panic in decider, null error, capture error state"

-- The deferred `recover`, by whether panics are allowed.
pub recover {ℓ} : {A : Type ℓ} → Bool → Exec A → Exec (Result A)
recover allow_panics (returns a) = returns (ok a)
recover true (panics p) = panics p
recover false (panics p) = returns (err (panic_error p))

-- Whether Tick goes on after a part of it, or returns the decisions with a nil state.
pub data Progress {ℓ} (A : Type ℓ) : Type ℓ where
  going : A → Progress A
  stopped : List Decision → Progress A

-- if f.allowPanics { panic(err) }, and the decisions of the early return after it
pub give_up : Bool → GoError → List Decision → Exec (List Decision) → Exec (List Decision)
give_up true e decisions captured = panics (of_error e)
give_up false e decisions captured = do more ← captured; returns (decisions ++ more)

pub stop_with {ℓ} :
    {A : Type ℓ} → Bool → GoError → List Decision → Exec (List Decision) → Exec (Progress A)
unfolding give_up
stop_with allow_panics e decisions captured = do
  ds ← give_up allow_panics e decisions captured
  returns (stopped ds)

abbrev pub Loop {ℓ} : Type ℓ → Type ℓ
Loop V = IntermediateOutcome V × FsmContext V

abbrev state_named {ℓ} : {V : Type ℓ} → Option (Map (FsmState V)) → String → Option (FsmState V)
state_named none name = none
state_named (some m) name = lookup name m

module _ {ℓ} {V : Type ℓ} (f : Fsm V) (execution : WorkflowExecution) where
  pub panic_safe_decide :
      FsmState V
      → FsmContext V
      → HistoryEvent
      → Option V
      → Exec (Result (Option (Outcome V) × FsmContext V))
  unfolding recover decide
  panic_safe_decide s context event value =
      recover f.allow_panics (decide context event value s.decider)

  pub error_decided :
      HistoryEvent
      → List HistoryEvent
      → IntermediateOutcome V
      → Result (Option (Outcome V) × FsmContext V)
      → Exec (Progress (Loop V))
  unfolding capture_decision_error merge_outcomes
  error_decided e older outcome (err error) = do
    more ← capture_decision_error f execution e older outcome.state outcome.data_value error
    returns (stopped (outcome.decisions ++ more))
  error_decided e older outcome (ok (an_outcome, context)) = do
    outcome' ← merge_outcomes outcome an_outcome
    returns (going (outcome', context))

  -- The body of the loop over the error events, at one event.
  pub error_step : FsmState V → HistoryEvent → List HistoryEvent → Loop V → Exec (Progress (Loop V))
  unfolding panic_safe_decide error_decided
  error_step s e older (outcome, context) = do
    decided ← panic_safe_decide s context e outcome.data_value
    error_decided e older outcome decided

  pub state_decided :
      HistoryEvent
      → List HistoryEvent
      → IntermediateOutcome V
      → Result (Option (Outcome V) × FsmContext V)
      → Exec (Progress (Loop V))
  unfolding capture_decision_error merge_outcomes stop_with track
  state_decided e older outcome (err error) =
      stop_with f.allow_panics error outcome.decisions
        (capture_decision_error f execution e older outcome.state outcome.data_value error)
  state_decided e older outcome (ok (an_outcome, context)) = do
    pending ← track context.pending_activities e
    outcome' ← merge_outcomes outcome an_outcome
    returns (going (outcome', record context { pending_activities = pending }))

  -- The body of the loop over the other events, at one event, in a state that the FSM has or lacks.
  pub in_state :
      Option (FsmState V) → HistoryEvent → List HistoryEvent → Loop V → Exec (Progress (Loop V))
  unfolding panic_safe_decide state_decided capture_system_error
  in_state (some s) e older (outcome, context) = do
    let here = record context { state = outcome.state; state_data = outcome.data_value }
    decided ← panic_safe_decide s here e outcome.data_value
    state_decided e older outcome decided
  in_state none e older (outcome, context) = do
    more ←
        capture_system_error f execution "MissingFsmStateError" (e ∷ older)
          (errors_new outcome.state)
    returns (stopped (outcome.decisions ++ more))

  pub event_step : HistoryEvent → List HistoryEvent → Loop V → Exec (Progress (Loop V))
  unfolding in_state
  event_step e older l = in_state (state_named f.states l.0.state) e older l

-- The next round of a loop, unless it returns early.
abbrev pub continue_with {ℓ} :
    {A : Type ℓ} → Progress A → (A → Exec (Progress A)) → Exec (Progress A)
continue_with (going a) k = k a
continue_with (stopped ds) k = returns (stopped ds)

-- A loop over events, oldest first, that may return early.
module _ {ℓ} {A : Type ℓ} (step : HistoryEvent → List HistoryEvent → A → Exec (Progress A)) where
  pub each_event : List HistoryEvent → List HistoryEvent → A → Exec (Progress A)
  each_event [] older a = returns (going a)
  each_event (e ∷ es) older a = do
    p ← step e older a
    continue_with p (λ a'. each_event es (e ∷ older) a')

module _ {ℓ} {V : Type ℓ} (f : Fsm V) (task : PollForDecisionTaskResponse) where
  -- The error events, if there are any; the context keeps the state that it is given here.
  pub process_errors : List HistoryEvent → Loop V → Exec (Progress (Loop V))
  unfolding error_step each_event new_data
  process_errors [] l = returns (going l)
  process_errors (e ∷ es) (outcome, context) = do
    fresh ← new_data f
    s ← deref f.error_state
    each_event (error_step f task.workflow_execution s) (reverse (e ∷ es)) [] (
      record outcome { data_value = some fresh; state = s.name },
      record context { state = s.name; state_data = some fresh },
    )

  pub restored :
      SerializedState → IntermediateOutcome V → FsmContext V → Result V → Exec (Progress (Loop V))
  unfolding stop_with capture_system_error
  restored saved outcome context (err e) =
      stop_with f.allow_panics e outcome.decisions
        (capture_system_error f task.workflow_execution "DeserializeStateError" task.events e)
  restored saved outcome context (ok value) = returns (
      going (
        record outcome {
          data_value = some value;
          state = saved.replication_data.state_name;
          state_version = saved.replication_data.state_version;
        },
        record context { state_version = saved.replication_data.state_version },
      ))

  -- The state and data of the marker, where no error event has given them.
  pub restore : SerializedState → Loop V → Exec (Progress (Loop V))
  unfolding restored new_data
  restore saved (outcome, context) = do
    fresh ← new_data f
    s ← deref f.serializer
    r ← s.deserialize saved.replication_data.state_data fresh
    restored saved outcome context r

  abbrev pub is_unset : IntermediateOutcome V → Bool
  is_unset outcome = elim outcome.data_value [ none ↦ outcome.state == "" | some _ ↦ false ]

  pub recover_state : SerializedState → Loop V → Exec (Progress (Loop V))
  unfolding restore
  recover_state saved l = if is_unset l.0 then restore saved l else returns (going l)

  pub finished :
      List Decision
      → Result (List Decision × SerializedState)
      → Exec (List Decision × Option SerializedState)
  unfolding give_up capture_system_error
  finished decisions (ok (final, saved)) = returns (final, some saved)
  finished decisions (err e) = do
    ds ←
        give_up f.allow_panics e decisions
          (capture_system_error f task.workflow_execution "StateSerializationError" [] e)
    returns (ds, none)

  -- The marker before the decisions, or the decisions with a signal if it cannot be made.
  pub finish : Loop V → Exec (List Decision × Option SerializedState)
  unfolding record_state_marker finished
  finish (outcome, context) = do
    r ← record_state_marker f outcome context.pending_activities
    finished outcome.decisions r

  -- The early return that a part asks for.
  pub or_stop :
      Progress (Loop V)
      → (Loop V → Exec (List Decision × Option SerializedState))
      → Exec (List Decision × Option SerializedState)
  or_stop (stopped ds) k = returns (ds, none)
  or_stop (going l) k = k l

  -- Tick from the state that was found on.
  pub tick_from :
      List HistoryEvent
      → List HistoryEvent
      → SerializedState
      → Exec (List Decision × Option SerializedState)
  unfolding new_fsm_context fsm_serializer process_errors recover_state event_step each_event finish
      or_stop
  tick_from last_events error_events saved = do
    let context =
        new_fsm_context (fsm_serializer f) task.workflow_type task.workflow_execution
          saved.pending_activities "" none 0
    handled ← process_errors error_events (zero_outcome, context)
    or_stop handled λ l. do
      recovered ← recover_state saved l
      or_stop recovered λ l'. do
        processed ← each_event (event_step f task.workflow_execution) (reverse last_events) [] l'
        or_stop processed finish

  pub tick_found :
      List HistoryEvent
      → List HistoryEvent
      → Result SerializedState
      → Exec (List Decision × Option SerializedState)
  unfolding tick_from give_up capture_system_error
  tick_found last_events error_events (ok saved) = tick_from last_events error_events saved
  tick_found last_events error_events (err e) = do
    ds ←
        give_up f.allow_panics e []
          (capture_system_error f task.workflow_execution "FindSerializedStateError" task.events e)
    returns (ds, none)

  unfoldable pub tick : Exec (List Decision × Option SerializedState)
  unfolding find_last_events find_serialized_state tick_found
  tick = do
    (last_events, error_events) ← find_last_events task.previous_started_event_id task.events
    found ← find_serialized_state f task.events
    tick_found last_events error_events found
