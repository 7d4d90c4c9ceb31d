-- ===== src/Deciders/Continuations.antt =====
-- ManagedContinuations (deciders.go, lines 198 to 274).
pub mod Answers
use swf4go.Prelude.{
  ℕ, ◌≡◌, refl, ap, ◌∙◌, Bool, true, false, Option, none, some, List, [], ◌∷◌, ◌==◌, ltb, eqb,
  length, arith, if◌then◌else◌,
}
use swf4go.Prelude.Decimal.{itoa}
use swf4go.Prelude.Map.{Map}
use swf4go.Go.{Exec, returns, panics, ◌>>=◌, deref}
use swf4go.Protocol.ActivityEvents.{TimerFiredEventAttributes}
use swf4go.Protocol.WorkflowEvents.{WorkflowExecutionSignaledEventAttributes}
use swf4go.Protocol.EventType.{EventType, timer_fired, workflow_execution_signaled}
use swf4go.Protocol.DecisionType.{start_timer, signal_external_workflow_execution}
use swf4go.Protocol.Decision.{Decision}
use swf4go.Protocol.HistoryEvent.{HistoryEvent}
use swf4go.Protocol.Zero.{zero_decision, zero_start_timer, zero_signal_external_workflow_execution}
use swf4go.Correlator.{ActivityInfo, entries}
use swf4go.Fsm.Outcome.{Outcome, pass, continue_outcome, stay_outcome}
use swf4go.Fsm.Context.{Decider, FsmContext, stay, activities_info, continue_workflow_decision}
use swf4go.Fsm.Machine.{continue_timer, continue_signal}
use swf4go.Deciders.{contribute, decide_with, composed_decider}

-- h.EventType == EventTypeTimerFired && h.TimerFiredEventAttributes.TimerID == ContinueTimer
pub fires_continuation : EventType → HistoryEvent → Exec Bool
fires_continuation timer_fired h = do
  attributes ← deref h.timer_fired_event_attributes
  returns (attributes.timer_id == continue_timer)
fires_continuation _ h = returns false

-- the same for a signal
pub signals_continuation : EventType → HistoryEvent → Exec Bool
signals_continuation workflow_execution_signaled h = do
  attributes ← deref h.workflow_execution_signaled_event_attributes
  returns (attributes.signal_name == continue_signal)
signals_continuation _ h = returns false

abbrev pub retry_timer : ℕ → Decision
retry_timer seconds = record zero_decision {
  decision_type = start_timer;
  start_timer_decision_attributes =
      some (record zero_start_timer {
        start_to_fire_timeout = itoa seconds;
        timer_id = continue_timer;
      });
}

module _ {ℓ} {V : Type ℓ} where
  abbrev pub large_signal : FsmContext V → Decision
  large_signal ctx = record zero_decision {
    decision_type = signal_external_workflow_execution;
    signal_external_workflow_execution_decision_attributes =
        some (record zero_signal_external_workflow_execution {
          signal_name = continue_signal;
          workflow_id = ctx.workflow_execution.workflow_id;
          run_id = ctx.workflow_execution.run_id;
        });
  }

  pub continue_now : FsmContext V → Option V → Exec (Option (Outcome V))
  continue_now ctx value = do
    d ← continue_workflow_decision ctx ctx.state
    returns (some (stay ctx value (d ∷ [])))

  -- By the activities that are in flight; a nil map has none.
  pub continue_or_wait :
      Option (Map ActivityInfo) → ℕ → FsmContext V → Option V → Exec (Option (Outcome V))
  unfolding continue_now
  continue_or_wait none seconds ctx value = continue_now ctx value
  continue_or_wait (some []) seconds ctx value = continue_now ctx value
  continue_or_wait (some (_ ∷ _)) seconds ctx value =
      returns (some (stay ctx value (retry_timer seconds ∷ [])))

  pub handle_continuation_timer : ℕ → Decider V
  unfolding fires_continuation continue_or_wait
  handle_continuation_timer seconds ctx h value = do
    fires ← fires_continuation h.event_type h
    if fires then continue_or_wait (activities_info ctx) seconds ctx value else returns pass

  pub handle_continuation_signal : ℕ → Decider V
  unfolding signals_continuation continue_or_wait
  handle_continuation_signal seconds ctx h value = do
    signals ← signals_continuation h.event_type h
    if signals then continue_or_wait (activities_info ctx) seconds ctx value else returns pass

  pub signal_continuation_when_history_large : ℕ → Decider V
  signal_continuation_when_history_large size ctx h value =
      if ltb size h.event_id
      then returns (some (stay ctx value (large_signal ctx ∷ [])))
      else returns pass

  unfoldable pub managed_continuations : ℕ → ℕ → Decider V
  unfolding composed_decider handle_continuation_timer handle_continuation_signal
      signal_continuation_when_history_large
  managed_continuations size seconds = composed_decider (
      handle_continuation_timer seconds
      ∷ handle_continuation_signal seconds
      ∷ signal_continuation_when_history_large size
      ∷ [])
