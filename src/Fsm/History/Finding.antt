-- ===== src/Fsm/History/Finding.antt =====
-- Where `findSerializedState` finds the state (fsm.go, lines 483 to 502).
use swf4go.Prelude.{
  String, ◌≡◌, ◌≢◌, refl, Bool, true, false, Option, none, some, List, [], ◌∷◌, ◌++◌, ◌==◌, All,
  eq_refl, Bool-cases, inl, inr,
}
use swf4go.Go.{Result, ok, err, Exec, returns, Returns, bind-Returns}
use swf4go.Protocol.ActivityEvents.{MarkerRecordedEventAttributes}
use swf4go.Protocol.WorkflowEvents.{WorkflowExecutionStartedEventAttributes}
use swf4go.Protocol.EventType.{EventType, marker_recorded, workflow_execution_started}
use swf4go.Protocol.HistoryEvent.{HistoryEvent}
use swf4go.Fsm.Serialization.{SerializedState, StateSerializer}
use swf4go.Fsm.Context.{FsmState}
use swf4go.Fsm.Machine.{Fsm, state_marker, initial_state_name}
use swf4go.Fsm.History.{
  is_marker_named, is_state_marker, name_initial, started_state, state_at, find_serialized_state,
}
use swf4go.Fsm.History.Scan.{HasAttributes}

-- An event that findSerializedState passes over.
abbrev pub IsQuiet : HistoryEvent → Type 0
IsQuiet h = (is_state_marker h ≡ returns false) × (h.event_type ≢ workflow_execution_started)

module _ {ℓ} {V : Type ℓ} (f : Fsm V) where
  started_state-ne :
      (t : EventType) (h : HistoryEvent)
      → t ≢ workflow_execution_started
      → started_state t f h ≡ returns none
  unfolding started_state
  started_state-ne workflow_execution_started h ne = absurd (ne refl)
  started_state-ne _ h ne = refl

  pub find-quiet :
      (newer rest : List HistoryEvent)
      → All IsQuiet newer
      → find_serialized_state f (newer ++ rest) ≡ find_serialized_state f rest
  unfolding find_serialized_state
  find-quiet [] rest q = refl
  find-quiet (h ∷ hs) rest q =
      rw (q.0.0, started_state-ne h.event_type h q.0.1) (find-quiet hs rest q.1)

  -- A state marker is read where it stands first.
  pub find-marker :
      (s : StateSerializer V) (h : HistoryEvent) (attributes : MarkerRecordedEventAttributes)
      (rest : List HistoryEvent) (r : Result SerializedState)
      → f.serializer ≡ some s
      → is_state_marker h ≡ returns true
      → h.marker_recorded_event_attributes ≡ some attributes
      → s.deserialize_state attributes.details ≡ returns r
      → find_serialized_state f (h ∷ rest) ≡ returns r
  unfolding find_serialized_state
  find-marker s h attributes rest r e m a d = simp (m, a, e, d)

pub is_state_marker-true :
    (h : HistoryEvent) (attributes : MarkerRecordedEventAttributes)
    → h.event_type ≡ marker_recorded
    → h.marker_recorded_event_attributes ≡ some attributes
    → attributes.marker_name ≡ state_marker
    → is_state_marker h ≡ returns true
unfolding is_state_marker
is_state_marker-true h attributes t a n = simp (t, a, n, eq_refl)

module _ {ℓ} {V : Type ℓ} (f : Fsm V) (s : StateSerializer V)
    (has_serializer : f.serializer ≡ some s)
    (reads_states : (t : String) → Returns (s.deserialize_state t)) (initial : FsmState V)
    (has_initial : f.initial_state ≡ some initial) where
  name_initial-Returns : (r : Result SerializedState) → Returns (name_initial f r)
  unfolding name_initial initial_state_name
  name_initial-Returns (err e) = (_, refl)
  name_initial-Returns (ok x) = elim (Bool-cases (x.replication_data.state_name == "")) [
    | inl unnamed ↦ rw (unnamed, has_initial) (_, refl)
    | inr named ↦ rw named (_, refl)
  ]

  started_state-Returns :
      (t : EventType) (h : HistoryEvent)
      → (t ≡ workflow_execution_started
          → (a : WorkflowExecutionStartedEventAttributes)
            × (h.workflow_execution_started_event_attributes ≡ some a))
      → Returns (started_state t f h)
  unfolding started_state
  started_state-Returns workflow_execution_started h w =
      let (a, p) = w refl in
      rw (has_serializer, p)
        (bind-Returns (s.deserialize_state a.input) _ (reads_states a.input)
          (λ r _. bind-Returns (name_initial f r) _ (name_initial-Returns r) (λ r' _. (_, refl))))
  started_state-Returns _ h w = (_, refl)

  is_marker_named-Returns :
      (t : EventType) (h : HistoryEvent)
      → (t ≡ marker_recorded
          → (a : MarkerRecordedEventAttributes) × (h.marker_recorded_event_attributes ≡ some a))
      → Returns (is_marker_named t h)
  unfolding is_marker_named
  is_marker_named-Returns marker_recorded h w = let (a, p) = w refl in rw p (_, refl)
  is_marker_named-Returns _ h w = (_, refl)

  is_marker_named-true :
      (t : EventType) (h : HistoryEvent) → is_marker_named t h ≡ returns true → t ≡ marker_recorded
  unfolding is_marker_named
  is_marker_named-true marker_recorded h e = refl
  is_marker_named-true _ h e = cc

  state_at-Returns :
      (h : HistoryEvent) (marker : Bool)
      → HasAttributes h
      → is_state_marker h ≡ returns marker
      → Returns (state_at f h marker)
  unfolding state_at is_state_marker
  state_at-Returns h true w e =
      let (a, p) = w.marker (is_marker_named-true h.event_type h e) in
      rw (has_serializer, p)
        (bind-Returns (s.deserialize_state a.details) _ (reads_states a.details) (λ r _. (_, refl)))
  state_at-Returns h false w e = started_state-Returns h.event_type h w.start

  rest-Returns :
      (found : Option (Result SerializedState)) (m : Exec (Result SerializedState))
      → Returns m
      → Returns
          (elim found as (λ _. Exec (Result SerializedState)) [ some r ↦ returns r | none ↦ m ])
  rest-Returns (some r) m n = (_, refl)
  rest-Returns none m n = n

  -- The search ends without a panic.
  pub find_serialized_state-Returns :
      (events : List HistoryEvent)
      → All HasAttributes events
      → Returns (find_serialized_state f events)
  unfolding find_serialized_state is_state_marker
  find_serialized_state-Returns [] w = (_, refl)
  find_serialized_state-Returns (h ∷ hs) w =
      bind-Returns (is_state_marker h) _ (is_marker_named-Returns h.event_type h w.0.marker)
        (λ marker e.
          bind-Returns (state_at f h marker) _ (state_at-Returns h marker w.0 e)
            (λ found _. rest-Returns found _ (find_serialized_state-Returns hs w.1)))

module _ {ℓ} {V : Type ℓ} (f : Fsm V) (s : StateSerializer V) where
  found_at_start :
      (h : HistoryEvent) (attributes : WorkflowExecutionStartedEventAttributes)
      (rest : List HistoryEvent) (x : SerializedState) (r : Result SerializedState)
      → f.serializer ≡ some s
      → h.event_type ≡ workflow_execution_started
      → h.workflow_execution_started_event_attributes ≡ some attributes
      → s.deserialize_state attributes.input ≡ returns (ok x)
      → name_initial f (ok x) ≡ returns r
      → find_serialized_state f (h ∷ rest) ≡ returns r
  unfolding find_serialized_state is_state_marker is_marker_named state_at started_state
  found_at_start h attributes rest x r e type a d n = simp (type, a, e, d, n)

  -- The input of a start event is read where no marker stands before it, and a state that it names is
  -- kept.
  pub find-start :
      (h : HistoryEvent) (attributes : WorkflowExecutionStartedEventAttributes)
      (rest : List HistoryEvent) (x : SerializedState)
      → f.serializer ≡ some s
      → h.event_type ≡ workflow_execution_started
      → h.workflow_execution_started_event_attributes ≡ some attributes
      → s.deserialize_state attributes.input ≡ returns (ok x)
      → (x.replication_data.state_name == "") ≡ false
      → find_serialized_state f (h ∷ rest) ≡ returns (ok x)
  unfolding name_initial
  find-start h attributes rest x e type a d named =
      found_at_start h attributes rest x (ok x) e type a d (rw named refl)

  -- An empty name becomes that of the initial state.
  pub find-start_unnamed :
      (initial : FsmState V) (h : HistoryEvent)
      (attributes : WorkflowExecutionStartedEventAttributes) (rest : List HistoryEvent)
      (x : SerializedState)
      → f.serializer ≡ some s
      → f.initial_state ≡ some initial
      → h.event_type ≡ workflow_execution_started
      → h.workflow_execution_started_event_attributes ≡ some attributes
      → s.deserialize_state attributes.input ≡ returns (ok x)
      → x.replication_data.state_name ≡ ""
      → find_serialized_state f (h ∷ rest)
        ≡ returns (
            ok (record x {
              replication_data = record x.replication_data { state_name = initial.name };
            }))
  unfolding name_initial initial_state_name
  find-start_unnamed initial h attributes rest x e has_initial type a d unnamed =
      found_at_start h attributes rest x _ e type a d (simp (unnamed, has_initial))
