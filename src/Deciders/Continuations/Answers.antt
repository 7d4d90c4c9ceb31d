-- ===== src/Deciders/Continuations/Answers.antt =====
-- What ManagedContinuations answers (deciders.go, lines 198 to 274).
use swf4go.Prelude.{
  ℕ, ◌≡◌, refl, ap, ◌∙◌, Bool, true, false, Option, none, some, List, [], ◌∷◌, ◌==◌, ltb, eqb,
  length, arith, if◌then◌else◌,
}
use swf4go.Prelude.Decimal.{itoa}
use swf4go.Prelude.Map.{Map}
use swf4go.Go.{Exec, returns, panics, ◌>>=◌}
use swf4go.Protocol.ActivityEvents.{TimerFiredEventAttributes}
use swf4go.Protocol.WorkflowEvents.{WorkflowExecutionSignaledEventAttributes}
use swf4go.Protocol.EventType.{EventType, timer_fired, workflow_execution_signaled}
use swf4go.Protocol.DecisionType.{start_timer, signal_external_workflow_execution}
use swf4go.Protocol.Decision.{Decision}
use swf4go.Protocol.HistoryEvent.{HistoryEvent}
use swf4go.Protocol.Zero.{zero_decision, zero_start_timer, zero_signal_external_workflow_execution}
use swf4go.Correlator.{ActivityInfo, entries}
use swf4go.Fsm.Outcome.{Outcome, pass, continue_outcome, stay_outcome}
use swf4go.Fsm.Context.{FsmContext, stay, activities_info, continue_workflow_decision}
use swf4go.Fsm.Machine.{continue_timer, continue_signal}
use swf4go.Deciders.{contribute, decide_with, composed_decider}
use swf4go.Deciders.Continuations.{
  continue_now, continue_or_wait, handle_continuation_timer, handle_continuation_signal,
  signal_continuation_when_history_large, fires_continuation, signals_continuation, large_signal,
  managed_continuations,
}

-- A timer or a signal asks for the continuation by its name.
unfoldable pub asks : EventType → HistoryEvent → Bool
asks timer_fired h = elim h.timer_fired_event_attributes [
  | none ↦ false
  | some a ↦ a.timer_id == continue_timer
]
asks workflow_execution_signaled h = elim h.workflow_execution_signaled_event_attributes [
  | none ↦ false
  | some a ↦ a.signal_name == continue_signal
]
asks _ h = false

-- The attributes of a timer or signal event are there.
pub record HasAttributes (t : EventType) (h : HistoryEvent) : Type 0 where
  pub timer :
      t ≡ timer_fired → (a : TimerFiredEventAttributes) × (h.timer_fired_event_attributes ≡ some a)
  pub signal :
      t ≡ workflow_execution_signaled
      → (a : WorkflowExecutionSignaledEventAttributes)
        × (h.workflow_execution_signaled_event_attributes ≡ some a)

module _ {ℓ} {V : Type ℓ} (ctx : FsmContext V) (value : Option V) where
  abbrev Next : Type ℓ
  Next = Option V → List Decision → Exec (Option (Outcome V))

  decision_kept :
      (m : Exec Decision) (next : Next)
      → (m >>= (λ d. returns (some (stay ctx value (d ∷ [])))) >>= λ o. contribute o value [] next)
        ≡ (m >>= λ d. returns (some (stay ctx value (d ∷ []))))
  unfolding contribute
  decision_kept (returns d) next = refl
  decision_kept (panics p) next = refl

  continue_or_wait_kept :
      (a : Option (Map ActivityInfo)) (seconds : ℕ) (next : Next)
      → (continue_or_wait a seconds ctx value >>= λ o. contribute o value [] next)
        ≡ continue_or_wait a seconds ctx value
  unfolding continue_or_wait continue_now contribute
  continue_or_wait_kept none seconds next =
      decision_kept (continue_workflow_decision ctx ctx.state) next
  continue_or_wait_kept (some []) seconds next =
      decision_kept (continue_workflow_decision ctx ctx.state) next
  continue_or_wait_kept (some (_ ∷ _)) seconds next = refl

  -- one of the two deciders that answer a request, at an event that is one or not
  answers :
      (asked : Bool) (seconds : ℕ) (next : Next)
      → ((if asked then continue_or_wait (activities_info ctx) seconds ctx value else returns pass)
          >>= λ o. contribute o value [] next)
        ≡ (if asked
            then continue_or_wait (activities_info ctx) seconds ctx value
            else next value [])
  unfolding contribute
  answers true seconds next = continue_or_wait_kept (activities_info ctx) seconds next
  answers false seconds next = refl

  abbrev last_resort : Bool → Exec (Option (Outcome V))
  last_resort large =
      if large
      then returns (some (stay ctx value (large_signal ctx ∷ [])))
      else returns (some (continue_outcome value []))

  signals_large :
      (large : Bool)
      → ((if large then returns (some (stay ctx value (large_signal ctx ∷ []))) else returns pass)
          >>= λ o. contribute o value [] (λ v ds. returns (some (continue_outcome v ds))))
        ≡ last_resort large
  unfolding contribute
  signals_large true = refl
  signals_large false = refl

  abbrev answered : Bool → ℕ → Bool → Exec (Option (Outcome V))
  answered asked seconds large =
      if asked then continue_or_wait (activities_info ctx) seconds ctx value else last_resort large

  managed_at :
      (t : EventType) (size seconds : ℕ) (h : HistoryEvent)
      → h.event_type ≡ t
      → HasAttributes t h
      → managed_continuations size seconds ctx h value
        ≡ answered (asks t h) seconds (ltb size h.event_id)
  unfolding managed_continuations composed_decider decide_with handle_continuation_timer
      handle_continuation_signal signal_continuation_when_history_large fires_continuation
      signals_continuation asks contribute
  managed_at timer_fired size seconds h e w =
      let (a, p) = w.timer refl in
      rw (e, p)
        (answers (a.timer_id == continue_timer) seconds _
          ∙ ap
              (λ (x : Exec (Option (Outcome V))).
                if a.timer_id == continue_timer
                then continue_or_wait (activities_info ctx) seconds ctx value
                else x)
              (signals_large (ltb size h.event_id)))
  managed_at workflow_execution_signaled size seconds h e w =
      let (a, p) = w.signal refl in
      rw (e, p)
        (answers (a.signal_name == continue_signal) seconds _
          ∙ ap
              (λ (x : Exec (Option (Outcome V))).
                if a.signal_name == continue_signal
                then continue_or_wait (activities_info ctx) seconds ctx value
                else x)
              (signals_large (ltb size h.event_id)))
  managed_at _ size seconds h e w = rw e (signals_large (ltb size h.event_id))

  -- The three answers, as decisions of SWF.
  abbrev pub continued : Exec (Option (Outcome V))
  continued = do
    d ← continue_workflow_decision ctx ctx.state
    returns (some (stay_outcome value (d ∷ [])))

  abbrev pub asked_again_after : ℕ → Exec (Option (Outcome V))
  asked_again_after seconds = returns (
      some (
        stay_outcome value (
          record zero_decision {
            decision_type = start_timer;
            start_timer_decision_attributes = some (record zero_start_timer {
              start_to_fire_timeout = itoa seconds;
              timer_id = "FSM.ContinueWorkflow";
            });
          }
          ∷ [])))

  abbrev pub signaled_itself : Exec (Option (Outcome V))
  signaled_itself = returns (
      some (
        stay_outcome value (
          record zero_decision {
            decision_type = signal_external_workflow_execution;
            signal_external_workflow_execution_decision_attributes =
                some (record zero_signal_external_workflow_execution {
                  signal_name = "FSM.ContinueWorkflow";
                  workflow_id = ctx.workflow_execution.workflow_id;
                  run_id = ctx.workflow_execution.run_id;
                });
          }
          ∷ [])))

  -- By the number of activities in flight.
  continue_or_wait-length :
      (a : Option (Map ActivityInfo)) (seconds : ℕ)
      → continue_or_wait a seconds ctx value
        ≡ (if eqb (length (entries a)) 0 then continued else asked_again_after seconds)
  unfolding continue_or_wait continue_now
  continue_or_wait-length none seconds = refl
  continue_or_wait-length (some []) seconds = refl
  continue_or_wait-length (some (e ∷ m)) seconds =
      let more : eqb (length (e ∷ m)) 0 ≡ false = ground arith in rw more refl

  -- What ManagedContinuations does with any event that comes with its attributes: a timer or a signal
  -- that asks for the continuation is answered by the decision to continue in the current state, if no
  -- activity is in flight, and else by a timer that asks again; any other event beyond the history size
  -- is answered by a signal to the execution itself that asks, and the rest is left to the deciders
  -- after it.
  pub managed_continuations-asks :
      (size seconds : ℕ) (h : HistoryEvent)
      → HasAttributes h.event_type h
      → managed_continuations size seconds ctx h value ≡ (
          if asks h.event_type h
          then if eqb (length (entries ctx.pending_activities.activities)) 0
            then continued
            else asked_again_after seconds
          else if ltb size h.event_id
          then signaled_itself
          else returns (some (continue_outcome value [])))
  managed_continuations-asks size seconds h w =
      managed_at h.event_type size seconds h refl w
      ∙ ap
          (λ (x : Exec (Option (Outcome V))).
            if asks h.event_type h then x else last_resort (ltb size h.event_id))
          (continue_or_wait-length (activities_info ctx) seconds)
