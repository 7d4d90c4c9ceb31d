-- ===== src/Fsm/SafetyTests.antt =====
-- Decision tasks of the sample FSM, with events of each kind.
use swf4go.Prelude.{
  ℕ, ◌≡◌, refl, Option, none, some, List, [], ◌∷◌, All, keep, sym, some-injective, subst, Bool,
  true, false, ◌==◌, if◌then◌else◌,
}
use swf4go.Prelude.Map.{lookup}
use swf4go.Go.{Exec, returns, panics, of_value, Returns, returns-injective}
use swf4go.Protocol.HistoryEvent.{HistoryEvent}
use swf4go.Protocol.WorkflowEvents.{WorkflowExecutionSignaledEventAttributes}
use swf4go.Fsm.Outcome.{Outcome, stay_outcome}
use swf4go.Fsm.Context.{FsmState}
use swf4go.Fsm.Machine.{error_signal}
use swf4go.Fsm.History.{find_last_events}
use swf4go.Fsm.History.Scan.{HasAttributes, is_new, is_error, since, find_last_events-keep}
use swf4go.Fsm.Tick.{tick}
use swf4go.Fsm.Tick.Total.{Decides, IsReady}
use swf4go.Fsm.Tick.Total.Task.{tick-Returns}
use swf4go.Fsm.Samples.Attributes.{
  started-HasAttributes, signaled-HasAttributes, marked-HasAttributes,
}
use swf4go.Fsm.Samples.{
  plus_one, on_signal, numbers, working, failing, counter, started, signaled, marked, task,
}

abbrev history : List HistoryEvent
history = signaled 9 error_signal ∷ signaled 8 "a" ∷ marked 7 "unreadable" ∷ started "" ∷ []

history-HasAttributes : All HasAttributes history
history-HasAttributes = (
  signaled-HasAttributes 9 error_signal,
  (
    signaled-HasAttributes 8 "a",
    (marked-HasAttributes 7 "unreadable", (started-HasAttributes "", tt)),
  ),
)

find_last_events-keep_example :
    find_last_events 7 history
    ≡ returns (keep is_new (since 7 history), keep is_error (since 7 history))
find_last_events-keep_example =
    find_last_events-keep 7 history (history-HasAttributes.0, (history-HasAttributes.1.0, tt))

on_signal-some :
    (boom : Bool) (v : Option ℕ) (o : Option (Outcome ℕ))
    → (if boom then panics (of_value "boom") else returns (some (stay_outcome (plus_one v) [])))
      ≡ returns o
    → (x : Outcome ℕ) × (o ≡ some x)
on_signal-some true v o e = cc
on_signal-some false v o e = (_, sym (returns-injective e))

work-some :
    (a : Option WorkflowExecutionSignaledEventAttributes) (v : Option ℕ) (o : Option (Outcome ℕ))
    → elim a as (λ _. Exec (Option (Outcome ℕ))) [
      | some a ↦ on_signal v a.signal_name
      | none ↦ returns (some (stay_outcome (plus_one v) []))
    ]
      ≡ returns o
    → (x : Outcome ℕ) × (o ≡ some x)
work-some none v o e = (_, sym (returns-injective e))
work-some (some a) v o e = on_signal-some (a.signal_name == "boom") v o e

working-Decides : Decides working
working-Decides ctx h v o e = work-some h.workflow_execution_signaled_event_attributes v o e

failing-Decides : Decides failing
failing-Decides ctx h v o e = (_, sym (returns-injective e))

state_of :
    (first second : Bool) (s : FsmState ℕ)
    → (if first then some working else if second then some failing else none) ≡ some s
    → Decides s
state_of true second s e = subst Decides (some-injective e) working-Decides
state_of false true s e = subst Decides (some-injective e) failing-Decides
state_of false false s e = cc

counter-IsReady : IsReady counter
unfolding lookup numbers
counter-IsReady = record {
  recovers = refl;
  fresh = 0;
  has_data_type = refl;
  serializer = numbers;
  has_serializer = refl;
  writes_errors = record { decision = λ e. (_, refl); system = λ e. (_, refl) };
  calm = record {
    writes_data = λ v. (_, refl);
    writes_states = λ x. (_, refl);
    reads_data = λ t v. (_, refl);
    reads_states = λ t. (_, refl);
  };
  initial = working;
  has_initial = refl;
  error = failing;
  has_error = refl;
  error_decides = λ ctx h v o e. (_, sym (returns-injective e));
  state_decides = λ name s e. state_of ("working" == name) ("error" == name) s e;
}

tick-Returns_example : Returns (tick counter (task history))
tick-Returns_example = tick-Returns counter counter-IsReady (task history) history-HasAttributes
