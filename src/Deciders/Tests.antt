-- ===== src/Deciders/Tests.antt =====
-- Deciders over numbers, composed.
use swf4go.Prelude.{ℕ, ◌≡◌, refl, none, some, [], ◌∷◌}
use swf4go.Go.{returns}
use swf4go.Protocol.EventType.{timer_fired, workflow_execution_signaled}
use swf4go.Protocol.HistoryEvent.{HistoryEvent}
use swf4go.Protocol.Zero.{zero_history_event, zero_timer_fired, zero_decision}
use swf4go.Fsm.Outcome.{Outcome, continue_outcome, stay_outcome, transition_outcome}
use swf4go.Fsm.Context.{Decider, FsmContext, new_fsm_context}
use swf4go.Fsm.Machine.{fsm_serializer}
use swf4go.Fsm.Samples.{counter}
use swf4go.Deciders.{composed_decider, default_decider}
use swf4go.Deciders.Composition.{Settled, composed_decider-flatten, composed_decider-Settled}
use swf4go.Deciders.Continuations.{retry_timer, managed_continuations}
use swf4go.Deciders.Continuations.Answers.{asks, managed_continuations-asks}

abbrev busy : FsmContext ℕ
unfolding new_fsm_context
busy =
    new_fsm_context (fsm_serializer counter) (record { name = "counter"; version = "1" })
      (record { run_id = "run"; workflow_id = "counter-1" })
      (record {
        activities = some (
            (
              "5",
              record {
                activity_id = "a";
                activity_type = record { name = "resize"; version = "1" };
              },
            )
            ∷ []);
      })
      "working" (some 3) 6

abbrev fired : HistoryEvent
fired = record zero_history_event {
  event_id = 9;
  event_type = timer_fired;
  timer_fired_event_attributes =
      some (record zero_timer_fired { timer_id = "FSM.ContinueWorkflow" });
}

abbrev passes : Decider ℕ
passes ctx h v = returns none

abbrev counts : Decider ℕ
counts ctx h v = returns (some (continue_outcome (some 4) (zero_decision ∷ [])))

abbrev moves : Decider ℕ
moves ctx h v = returns (some (transition_outcome v "done" (zero_decision ∷ [])))

composed_decider-flatten_example :
    composed_decider (passes ∷ composed_decider (counts ∷ []) ∷ moves ∷ []) busy fired (some 3)
    ≡ composed_decider (passes ∷ counts ∷ moves ∷ []) busy fired (some 3)
composed_decider-flatten_example =
    composed_decider-flatten busy fired (passes ∷ []) (counts ∷ []) (moves ∷ []) (some 3)

moves_on :
    composed_decider (passes ∷ composed_decider (counts ∷ []) ∷ moves ∷ []) busy fired (some 3)
    ≡ returns (some (transition_outcome (some 4) "done" (zero_decision ∷ zero_decision ∷ [])))
unfolding composed_decider
moves_on = refl

counted_and_stayed :
    composed_decider (counts ∷ default_decider ∷ []) busy fired (some 3)
    ≡ returns (some (stay_outcome (some 4) (zero_decision ∷ [])))
unfolding composed_decider default_decider
counted_and_stayed = refl

composed_decider-Settled_example :
    (x : Outcome ℕ) × (some (stay_outcome (some 4) (zero_decision ∷ [])) ≡ some x) × Settled x
composed_decider-Settled_example =
    composed_decider-Settled busy fired (counts ∷ []) (some 3) _ counted_and_stayed

timer_signal : timer_fired ≡ workflow_execution_signaled → ⊥
timer_signal e = cc

managed_continuations-asks_example :
    managed_continuations 100 30 busy fired (some 3)
    ≡ returns (some (stay_outcome (some 3) (retry_timer 30 ∷ [])))
unfolding asks busy managed_continuations
managed_continuations-asks_example =
    managed_continuations-asks busy (some 3) 100 30 fired
      (record { timer = λ e. (_, refl); signal = λ e. absurd (timer_signal e) })
