-- ===== src/Fsm/Tick/Signals.antt =====
-- The decisions of a `Tick` that returns no state (fsm.go, lines 270 to 370).
pub mod Steps
use swf4go.Prelude.{
  String, ◌≡◌, refl, ap, subst, ◌∙◌, ◌⊎◌, inl, inr, Bool, true, false, Option, none, some, List, [],
  ◌∷◌, ◌++◌, reverse, if◌then◌else◌,
}
use swf4go.Go.{
  GoError, Result, ok, err, Exec, returns, panics, ◌>>=◌, deref, bind-eq-returns, returns-injective,
}
use swf4go.Protocol.Common.{WorkflowExecution}
use swf4go.Protocol.Decision.{Decision}
use swf4go.Protocol.HistoryEvent.{HistoryEvent}
use swf4go.Protocol.Workers.{PollForDecisionTaskResponse}
use swf4go.Fsm.Outcome.{Outcome, IntermediateOutcome, merge_outcomes}
use swf4go.Fsm.Serialization.{SerializedState}
use swf4go.Fsm.Context.{FsmContext, FsmState}
use swf4go.Fsm.Machine.{Fsm, error_signal, system_error_signal, new_data}
use swf4go.Fsm.History.{find_last_events, find_serialized_state}
use swf4go.Fsm.Capture.{
  error_signal_decision, capture_decision_error, capture_system_error, record_state_marker,
}
use swf4go.Fsm.Capture.Inversion.{
  Signalled, capture_decision_error-Signalled, capture_system_error-Signalled,
}
use swf4go.Correlator.{track}
use swf4go.Fsm.Tick.{
  Progress, going, stopped, Loop, give_up, stop_with, panic_safe_decide, error_decided, error_step,
  state_decided, in_state, event_step, each_event, process_errors, restored, recover_state,
  finished, finish, or_stop, tick_from, tick_found, tick, is_unset, state_named,
}
use swf4go.Fsm.Tick.Stages.{each_event_stops, start}
use swf4go.Fsm.Tick.Signals.Steps.{
  EndsInSignal, stop_with_ends, returned_ends, if-cases, going-ne-stopped, error_step_ends,
  event_step_ends, system_error-Captures,
}

module _ {ℓ} {V : Type ℓ} (f : Fsm V) (task : PollForDecisionTaskResponse) where
  process_errors_ends :
      (es : List HistoryEvent) (l : Loop V) (ds : List Decision)
      → process_errors f task es l ≡ returns (stopped ds)
      → EndsInSignal task.workflow_execution ds
  unfolding process_errors
  process_errors_ends [] l ds h = cc
  process_errors_ends (e ∷ es) l ds h =
      let (fresh, _, h₀) = bind-eq-returns (new_data f) _ h in
      let (s, p, q) = bind-eq-returns (deref f.error_state) _ h₀ in
      each_event_stops (error_step f task.workflow_execution s)
        (EndsInSignal task.workflow_execution) (error_step_ends f task.workflow_execution s)
        (reverse (e ∷ es)) [] _ ds q

  restored_ends :
      (saved : SerializedState) (outcome : IntermediateOutcome V) (c : FsmContext V) (r : Result V)
      (ds : List Decision)
      → restored f task saved outcome c r ≡ returns (stopped ds)
      → EndsInSignal task.workflow_execution ds
  unfolding restored
  restored_ends saved outcome c (err e) ds h =
      stop_with_ends task.workflow_execution f.allow_panics e outcome.decisions _ ds
        (system_error-Captures f task.workflow_execution _ task.events e) h
  restored_ends saved outcome c (ok v) ds h = cc

  recover_state_ends :
      (saved : SerializedState) (l : Loop V) (ds : List Decision)
      → recover_state f task saved l ≡ returns (stopped ds)
      → EndsInSignal task.workflow_execution ds
  unfolding recover_state
  recover_state_ends saved l ds h = elim (if-cases (is_unset f task l.0) _ _ h) [
    | inl unset ↦
        let (fresh, _, h₀) = bind-eq-returns (new_data f) _ unset in
        let (s, _, h₁) = bind-eq-returns (deref f.serializer) _ h₀ in
        let (r, _, q) =
          bind-eq-returns (s.deserialize saved.replication_data.state_data fresh) _ h₁ in
        restored_ends saved l.0 l.1 r ds q
    | inr set ↦ absurd (going-ne-stopped set)
  ]

  finished_ends :
      (decisions : List Decision) (r : Result (List Decision × SerializedState))
      (ds : List Decision)
      → finished f task decisions r ≡ returns (ds, none)
      → EndsInSignal task.workflow_execution ds
  unfolding finished
  finished_ends decisions (ok (final, saved)) ds h = cc
  finished_ends decisions (err e) ds h =
      returned_ends task.workflow_execution f.allow_panics e decisions _ ds
        (system_error-Captures f task.workflow_execution _ [] e) h

  finish_ends :
      (l : Loop V) (ds : List Decision)
      → finish f task l ≡ returns (ds, none)
      → EndsInSignal task.workflow_execution ds
  unfolding finish
  finish_ends l ds h =
      let (r, p, q) = bind-eq-returns (record_state_marker f l.0 l.1.pending_activities) _ h in
      finished_ends l.0.decisions r ds q

  -- a part that stops, or hands over, where its stops and what follows it end in a signal
  part_ends :
      (m : Exec (Progress (Loop V))) (k : Loop V → Exec (List Decision × Option SerializedState))
      (ds : List Decision)
      → ((ds' : List Decision)
          → m ≡ returns (stopped ds')
          → EndsInSignal task.workflow_execution ds')
      → ((l : Loop V) (ds' : List Decision)
          → k l ≡ returns (ds', none)
          → EndsInSignal task.workflow_execution ds')
      → (m >>= λ p. or_stop f task p k) ≡ returns (ds, none)
      → EndsInSignal task.workflow_execution ds
  unfolding or_stop
  part_ends (returns (stopped ds')) k ds stops later h = stops ds (
      ap (λ (x : List Decision × Option SerializedState). returns (stopped x.0))
        (returns-injective h))
  part_ends (returns (going l)) k ds stops later h = later l ds h
  part_ends (panics p) k ds stops later h = cc

  tick_from_ends :
      (last_events error_events : List HistoryEvent) (saved : SerializedState) (ds : List Decision)
      → tick_from f task last_events error_events saved ≡ returns (ds, none)
      → EndsInSignal task.workflow_execution ds
  unfolding tick_from
  tick_from_ends last_events error_events saved ds h =
      part_ends (process_errors f task error_events (start f task saved)) _ ds
        (process_errors_ends error_events (start f task saved))
        (λ l ds₁.
          part_ends (recover_state f task saved l) _ ds₁ (recover_state_ends saved l) (λ l' ds₂.
            part_ends
              (each_event (event_step f task.workflow_execution) (reverse last_events) [] l')
              (finish f task) ds₂
              (each_event_stops (event_step f task.workflow_execution)
                (EndsInSignal task.workflow_execution) (event_step_ends f task.workflow_execution)
                (reverse last_events) [] l')
              finish_ends))
        h

  tick_found_ends :
      (last_events error_events : List HistoryEvent) (r : Result SerializedState)
      (ds : List Decision)
      → tick_found f task last_events error_events r ≡ returns (ds, none)
      → EndsInSignal task.workflow_execution ds
  unfolding tick_found
  tick_found_ends last_events error_events (ok saved) ds h =
      tick_from_ends last_events error_events saved ds h
  tick_found_ends last_events error_events (err e) ds h =
      returned_ends task.workflow_execution f.allow_panics e [] _ ds
        (system_error-Captures f task.workflow_execution _ task.events e) h

  -- Where `Tick` returns a nil state, the last of its decisions signals an error to the execution that
  -- the task is of, whatever went wrong and whatever was decided before.
  pub tick-EndsInSignal :
      (ds : List Decision)
      → tick f task ≡ returns (ds, none)
      → EndsInSignal task.workflow_execution ds
  unfolding tick
  tick-EndsInSignal ds h =
      let ((last_events, error_events), p, h₁) =
        bind-eq-returns (find_last_events task.previous_started_event_id task.events) _ h in
      let (r, q, h₂) = bind-eq-returns (find_serialized_state f task.events) _ h₁ in
      tick_found_ends last_events error_events r ds h₂
