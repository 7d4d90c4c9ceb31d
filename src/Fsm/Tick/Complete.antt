-- ===== src/Fsm/Tick/Complete.antt =====
-- The decisions that Tick returns come with the attributes of their types (fsm.go, lines 270 to 370, 535 to 563).
mod Tests
use swf4go.Prelude.{
  ℕ, String, ◌≡◌, refl, sym, subst, ap, Option, none, some, List, [], ◌∷◌, ◌++◌, All, All-append,
}
use swf4go.Go.{ok, returns}
use swf4go.Protocol.Decision.{Decision}
use swf4go.Protocol.DecisionSelectors.{IsComplete, decision_attributes}
use swf4go.Protocol.HistoryEvent.{HistoryEvent}
use swf4go.Protocol.Workers.{PollForDecisionTaskResponse}
use swf4go.Fsm.Outcome.{Outcome, outcome_decisions}
use swf4go.Fsm.Serialization.{SerializedState}
use swf4go.Fsm.Context.{FsmContext, FsmState}
use swf4go.Fsm.Machine.{Fsm, state_marker}
use swf4go.Fsm.History.{find_last_events, find_serialized_state}
use swf4go.Fsm.Capture.{record_string_marker}
use swf4go.Fsm.Tick.{Loop, state_named, tick}
use swf4go.Fsm.Tick.Runs.{Runs, halt, step}
use swf4go.Fsm.Tick.Refinement.{tick-Ticked}

record_string_marker-IsComplete :
    (name details : String) → IsComplete (record_string_marker name details)
unfolding decision_attributes
record_string_marker-IsComplete name details = (_, refl)

module _ {ℓ} {V : Type ℓ} (f : Fsm V)
    (deciders : (name : String) (s : FsmState V) (context : FsmContext V) (e : HistoryEvent)
        (v : Option V) (o : Outcome V)
      → state_named f.states name ≡ some s
      → s.decider context e v ≡ returns (some o)
      → All IsComplete (outcome_decisions o)) where
  Runs-IsComplete :
      {es : List HistoryEvent} {l m : Loop V}
      → Runs f es l m
      → All IsComplete l.0.decisions
      → All IsComplete m.0.decisions
  Runs-IsComplete halt h = h
  Runs-IsComplete (step {l = l} d r) h = Runs-IsComplete r (
      subst (λ (x : Loop V). All IsComplete x.0.decisions) (sym d.result)
        (All-append IsComplete l.0.decisions (outcome_decisions d.outcome) h
          (deciders l.0.state d.state _ _ _ d.outcome d.has_state d.decided)))

  -- For a task without error events, every decision that Tick returns with a state comes with the
  -- attributes of its type, where those of the deciders' outcomes do.
  pub tick-IsComplete :
      (task : PollForDecisionTaskResponse) (last_events : List HistoryEvent)
      (saved new : SerializedState) (ds : List Decision)
      → find_last_events task.previous_started_event_id task.events ≡ returns (last_events, [])
      → find_serialized_state f task.events ≡ returns (ok saved)
      → tick f task ≡ returns (ds, some new)
      → All IsComplete ds
  tick-IsComplete task last_events saved new ds scanned found h =
      let t = tick-Ticked f task last_events saved scanned found ds new h in
      subst (All IsComplete) (sym t.decisions)
        (record_string_marker-IsComplete state_marker t.details, Runs-IsComplete t.run tt)
