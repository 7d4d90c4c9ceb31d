-- ===== src/Fsm/Tick/Marker.antt =====
-- The state that `Tick` persists, and how the next task finds it.
use swf4go.Prelude.{String, ◌≡◌, sym, ap, some-injective, ◌∙◌, some, List, ◌∷◌, ◌++◌, All}
use swf4go.Go.{Result, ok, err, returns, bind-eq-returns}
use swf4go.Protocol.ActivityEvents.{MarkerRecordedEventAttributes}
use swf4go.Protocol.EventType.{marker_recorded}
use swf4go.Protocol.Decision.{Decision}
use swf4go.Protocol.HistoryEvent.{HistoryEvent}
use swf4go.Protocol.Workers.{PollForDecisionTaskResponse}
use swf4go.Fsm.Serialization.{SerializedState, StateSerializer, state}
use swf4go.Fsm.Machine.{Fsm, state_marker}
use swf4go.Fsm.History.{find_serialized_state}
use swf4go.Fsm.Capture.{record_string_marker, record_state_marker}
use swf4go.Fsm.Capture.Inversion.{Written, record_state_marker-Written}
use swf4go.Protocol.DecisionAttributes.{RecordMarkerDecisionAttributes}
use swf4go.Fsm.History.Finding.{IsQuiet, find-quiet, find-marker, is_state_marker-true}
use swf4go.Fsm.Tick.{Loop, finished, finish, tick}
use swf4go.Fsm.Tick.Stages.{tick-Found, not_from_give_up}

module _ {ℓ} {V : Type ℓ} (f : Fsm V) (task : PollForDecisionTaskResponse) where
  finished-eq-some :
      (decisions : List Decision) (r : Result (List Decision × SerializedState))
      {ds : List Decision} {new : SerializedState}
      → finished f task decisions r ≡ returns (ds, some new)
      → r ≡ ok (ds, new)
  unfolding finished
  finished-eq-some decisions (ok (final, saved)) h = cc
  finished-eq-some decisions (err e) h = absurd (not_from_give_up f task _ h)

  pub finish-Written :
      (l : Loop V) (ds : List Decision) (new : SerializedState)
      → finish f task l ≡ returns (ds, some new)
      → Written f l.0 l.1.pending_activities ds new
  unfolding finish
  finish-Written l ds new h =
      let (r, p, q) = bind-eq-returns (record_state_marker f l.0 l.1.pending_activities) _ h in
      record_state_marker-Written f l.0 l.1.pending_activities ds new
        (rw (finished-eq-some l.0.decisions r q) at p)

module _ {ℓ} {V : Type ℓ} (f : Fsm V) (task : PollForDecisionTaskResponse) where
  pub tick-Written :
      (ds : List Decision) (new : SerializedState)
      → tick f task ≡ returns (ds, some new)
      → (l : Loop V) × Written f l.0 l.1.pending_activities ds new
  tick-Written ds new e =
      let p = (tick-Found f task ds new e).passed in
      (p.processed, finish-Written f task p.processed ds new p.result)

-- SWF's event for a decision that records a marker: the same name and details.
pub record Recorded (d : Decision) (h : HistoryEvent) : Type 0 where
  pub type : h.event_type ≡ marker_recorded
  pub asked : RecordMarkerDecisionAttributes
  pub decided : d.record_marker_decision_attributes ≡ some asked
  pub attributes : MarkerRecordedEventAttributes
  pub recorded : h.marker_recorded_event_attributes ≡ some attributes
  pub name : attributes.marker_name ≡ asked.marker_name
  pub details : attributes.details ≡ asked.details

head-injective {ℓ} : {A : Type ℓ} {a b : A} {xs ys : List A} → a ∷ xs ≡ b ∷ ys → a ≡ b
head-injective h = cc

asked_of :
    (d : Decision) (details : String) (asked : RecordMarkerDecisionAttributes)
    → d ≡ record_string_marker state_marker details
    → d.record_marker_decision_attributes ≡ some asked
    → (asked.marker_name ≡ state_marker) × (asked.details ≡ details)
asked_of d details asked e p =
    let same =
      some-injective (sym (ap (λ (x : Decision). x.record_marker_decision_attributes) e) ∙ p) in
    (cc same, cc same)

module _ {ℓ} {V : Type ℓ} (f : Fsm V) (task : PollForDecisionTaskResponse) (s : StateSerializer V)
    (has_serializer : f.serializer ≡ some s)
    (reads_back : (x : SerializedState) (t : String)
      → s.serialize (state x) ≡ returns (ok t)
      → s.deserialize_state t ≡ returns (ok x)) where
  -- Where the serializer reads back what it wrote: once SWF has recorded the first decision of a `Tick`
  -- that returned a state, a later history, with only quiet events after the marker, gives that state.
  pub find-tick :
      (d : Decision) (rest : List Decision) (new : SerializedState) (h : HistoryEvent)
      (newer older : List HistoryEvent)
      → tick f task ≡ returns (d ∷ rest, some new)
      → Recorded d h
      → All IsQuiet newer
      → find_serialized_state f (newer ++ h ∷ older) ≡ returns (ok new)
  find-tick d rest new h newer older e r q =
      let w =
        finish-Written f task _ (d ∷ rest) new (tick-Found f task (d ∷ rest) new e).passed.result in
      let same : w.serializer ≡ s = some-injective (sym w.has_serializer ∙ has_serializer) in
      let (named, kept) = asked_of d w.details r.asked (head-injective w.decisions) r.decided in
      find-quiet f newer (h ∷ older) q
      ∙ find-marker f s h r.attributes older (ok new) has_serializer
          (is_state_marker-true h r.attributes r.type r.recorded (r.name ∙ named)) r.recorded
          (ap s.deserialize_state (r.details ∙ kept)
            ∙ reads_back new w.details
                (ap (λ (x : StateSerializer V). x.serialize (state new)) (sym same) ∙ w.serialized))
