-- ===== src/Fsm/Capture/Inversion.antt =====
-- What a successful `recordStateMarker` has written, and what each captured error is.
use swf4go.Prelude.{String, ◌≡◌, refl, sym, ap, ◌∙◌, Option, some, List, [], ◌∷◌}
use swf4go.Go.{
  GoError, Result, ok, err, returns, deref, bind-eq-returns, returns-injective, deref-eq-returns,
}
use swf4go.Protocol.Common.{WorkflowExecution}
use swf4go.Protocol.Decision.{Decision}
use swf4go.Protocol.HistoryEvent.{HistoryEvent}
use swf4go.Correlator.{ActivityCorrelator}
use swf4go.Fsm.Outcome.{IntermediateOutcome}
use swf4go.Fsm.Serialization.{SerializedState, StateSerializer, Payload, user_data, state}
use swf4go.Fsm.Machine.{Fsm, state_marker, error_signal, system_error_signal}
use swf4go.Fsm.Capture.{
  record_string_marker, error_signal_decision, marker_of, signal_with, with_decisions,
  text_or_empty, marked_state, record_marker_for, capture_error, capture_decision_error,
  capture_system_error, record_state_marker,
}

with_decisions-eq-ok :
    (name : String) (decisions : List Decision) (m : SerializedState) (r : Result String)
    {ds : List Decision} {new : SerializedState}
    → with_decisions decisions m (marker_of name r) ≡ ok (ds, new)
    → (details : String) × (r ≡ ok details)
      × (ds ≡ record_string_marker name details ∷ decisions)
      × (new ≡ m)
unfolding with_decisions marker_of
with_decisions-eq-ok name decisions m (ok t) h = (t, refl, cc, cc)
with_decisions-eq-ok name decisions m (err e) h = cc

record_marker_for-eq-returns {ℓ} :
    {V : Type ℓ} (f : Fsm V) (name : String) (p : Payload V) (s : StateSerializer V)
    (r : Result Decision)
    → f.serializer ≡ some s
    → record_marker_for f name p ≡ returns r
    → (w : Result String) × (s.serialize p ≡ returns w) × (r ≡ marker_of name w)
unfolding record_marker_for
record_marker_for-eq-returns f name p s r e h =
    let (w, q, h₁) = bind-eq-returns (s.serialize p) _ (rw e at h) in
    (w, q, sym (returns-injective h₁))

module _ {ℓ} {V : Type ℓ} (f : Fsm V) (outcome : IntermediateOutcome V)
    (pending : ActivityCorrelator) where
  -- A marker that was made holds the serialized new state, and stands before the decisions.
  pub record Written (ds : List Decision) (new : SerializedState) : Type ℓ where
    pub serializer : StateSerializer V
    pub details : String
    pub has_serializer : f.serializer ≡ some serializer
    pub serialized : serializer.serialize (state new) ≡ returns (ok details)
    pub decisions : ds ≡ record_string_marker state_marker details ∷ outcome.decisions
    pub written : Result String
    pub data_written : serializer.serialize (user_data outcome.data_value) ≡ returns written
    pub new_state : new ≡ marked_state outcome pending (text_or_empty written)

  pub record_state_marker-Written :
      (ds : List Decision) (new : SerializedState)
      → record_state_marker f outcome pending ≡ returns (ok (ds, new))
      → Written ds new
  unfolding record_state_marker
  record_state_marker-Written ds new h =
      let (s, p, h₁) = bind-eq-returns (deref f.serializer) _ h in
      let e = deref-eq-returns f.serializer p in
      let (written, p₁, h₂) = bind-eq-returns (s.serialize (user_data outcome.data_value)) _ h₁ in
      let m = marked_state outcome pending (text_or_empty written) in
      let (made, q, h₃) = bind-eq-returns (record_marker_for f state_marker (state m)) _ h₂ in
      let (w, p₂, is_made) = record_marker_for-eq-returns f state_marker (state m) s made e q in
      let (t, r, d, n) =
        with_decisions-eq-ok state_marker outcome.decisions m w
          (ap (with_decisions outcome.decisions m) (sym is_made) ∙ returns-injective h₃) in
      record {
        serializer = s;
        details = t;
        has_serializer = e;
        serialized = ap (λ (x : SerializedState). s.serialize (state x)) n ∙ p₂ ∙ ap returns r;
        written = written;
        data_written = p₁;
        decisions = d;
        new_state = n;
      }

-- The one decision of a captured error.
pub record Signalled (signal : String) (execution : WorkflowExecution) (ds : List Decision)
    : Type 0 where
  pub details : String
  pub decisions : ds ≡ error_signal_decision signal execution details ∷ []

signal_with-Signalled :
    (signal : String) (execution : WorkflowExecution) (r : Result Decision) (ds : List Decision)
    → signal_with signal execution r ≡ returns ds
    → Signalled signal execution ds
unfolding signal_with
signal_with-Signalled signal execution (err e) ds h = cc
signal_with-Signalled signal execution (ok r) ds h =
    let (attributes, p, q) = bind-eq-returns (deref r.record_marker_decision_attributes) _ h in
    record { details = attributes.details; decisions = sym (returns-injective q) }

module _ {ℓ} {V : Type ℓ} (f : Fsm V) (execution : WorkflowExecution) where
  capture_error-Signalled :
      (signal : String) (error : Payload V) (ds : List Decision)
      → capture_error f signal execution error ≡ returns ds
      → Signalled signal execution ds
  unfolding capture_error
  capture_error-Signalled signal error ds h =
      let (r, p, q) = bind-eq-returns (record_marker_for f signal error) _ h in
      signal_with-Signalled signal execution r ds q

  pub capture_decision_error-Signalled :
      (e : HistoryEvent) (after : List HistoryEvent) (name : String) (v : Option V)
      (error : GoError) (ds : List Decision)
      → capture_decision_error f execution e after name v error ≡ returns ds
      → Signalled error_signal execution ds
  unfolding capture_decision_error
  capture_decision_error-Signalled e after name v error ds h =
      capture_error-Signalled error_signal _ ds h

  pub capture_system_error-Signalled :
      (type : String) (events : List HistoryEvent) (error : GoError) (ds : List Decision)
      → capture_system_error f execution type events error ≡ returns ds
      → Signalled system_error_signal execution ds
  unfolding capture_system_error
  capture_system_error-Signalled type events error ds h =
      capture_error-Signalled system_error_signal _ ds h
