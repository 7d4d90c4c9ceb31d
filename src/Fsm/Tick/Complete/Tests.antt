-- ===== src/Fsm/Tick/Complete/Tests.antt =====
-- An FSM whose decider records a marker for each event.
use swf4go.Prelude.{
  ℕ, String, ◌≡◌, refl, subst, ap, ◌∙◌, Option, some, some-injective, List, [], ◌∷◌, All, ◌==◌,
  Bool-cases, inl, inr,
}
use swf4go.Prelude.Map.{lookup}
use swf4go.Go.{returns, returns-injective}
use swf4go.Protocol.Decision.{Decision}
use swf4go.Protocol.DecisionSelectors.{IsComplete, decision_attributes}
use swf4go.Protocol.HistoryEvent.{HistoryEvent}
use swf4go.Fsm.Outcome.{Outcome, stay_outcome, outcome_decisions}
use swf4go.Fsm.Serialization.{SerializedState}
use swf4go.Fsm.Context.{FsmContext, FsmState}
use swf4go.Fsm.Machine.{Fsm, state_marker}
use swf4go.Fsm.History.{find_last_events, find_serialized_state}
use swf4go.Fsm.Capture.{record_string_marker}
use swf4go.Fsm.Samples.Codec.{put_state}
use swf4go.Fsm.Samples.{numbers, counter, saved, started, signaled, task}
use swf4go.Fsm.Tick.{state_named, tick}
use swf4go.Fsm.Tick.Complete.{tick-IsComplete}

abbrev noted : List Decision
noted = record_string_marker "note" "seen" ∷ []

abbrev noting : FsmState ℕ
noting = record { name = "working"; decider = λ ctx h v. returns (some (stay_outcome v noted)) }

abbrev notebook : Fsm ℕ
notebook = record counter { states = some (("working", noting) ∷ []) }

noted-IsComplete : All IsComplete noted
unfolding decision_attributes
noted-IsComplete = ((_, refl), tt)

noting-IsComplete :
    (name : String) (s : FsmState ℕ) (context : FsmContext ℕ) (e : HistoryEvent) (v : Option ℕ)
    (o : Outcome ℕ)
    → state_named notebook.states name ≡ some s
    → s.decider context e v ≡ returns (some o)
    → All IsComplete (outcome_decisions o)
unfolding lookup
noting-IsComplete name s context e v o named decided = elim (Bool-cases ("working" == name)) [
  | inl same ↦
      let known : noting ≡ s = some-injective (rw same at named) in
      let made : some (stay_outcome v noted) ≡ some o =
        returns-injective (ap (λ (x : FsmState ℕ). x.decider context e v) known ∙ decided) in
      subst (λ (x : Outcome ℕ). All IsComplete (outcome_decisions x)) (some-injective made)
        noted-IsComplete
  | inr other ↦ let q = rw other at named in cc
]

abbrev events : List HistoryEvent
unfolding put_state
events = signaled 4 "a" ∷ started (put_state saved) ∷ []

abbrev after : SerializedState
after = record {
  replication_data = record { state_version = 7; state_name = "working"; state_data = "1110" };
  pending_activities = record { activities = some [] };
}

abbrev decided : List Decision
unfolding put_state
decided =
    record_string_marker state_marker (put_state after)
    ∷ record_string_marker "note" "seen"
    ∷ record_string_marker "note" "seen"
    ∷ []

tick-IsComplete_example : All IsComplete decided
unfolding tick numbers put_state lookup find_last_events find_serialized_state
tick-IsComplete_example =
    tick-IsComplete notebook noting-IsComplete (task events) events saved after decided refl refl
      refl
