-- ===== src/Fsm/Tick/Refinement.antt =====
-- A task without error events against the relation of `Runs` (fsm.go, lines 270 to 370).
use swf4go.Prelude.{
  String, ◌≡◌, refl, sym, ap, subst, some-injective, ◌∙◌, some, List, [], ◌∷◌, reverse,
}
use mathlib.Core.Path.{subst₃}
use swf4go.Go.{ok-injective}
use swf4go.Go.{
  Result, ok, err, returns, deref, bind-eq-returns, returns-injective, deref-eq-returns,
}
use swf4go.Protocol.Decision.{Decision}
use swf4go.Protocol.HistoryEvent.{HistoryEvent}
use swf4go.Protocol.Workers.{PollForDecisionTaskResponse}
use swf4go.Fsm.Outcome.{zero_outcome}
use swf4go.Fsm.Serialization.{SerializedState, StateSerializer, user_data, state}
use swf4go.Fsm.Machine.{Fsm, state_marker, new_data, new_data-returns, new_data-eq-returns}
use swf4go.Fsm.History.{find_last_events, find_serialized_state}
use swf4go.Fsm.Capture.{record_string_marker, text_or_empty, marked_state}
use swf4go.Fsm.Tick.{going, Loop, process_errors, restored, recover_state, finish, tick}
use swf4go.Fsm.Tick.Stages.{tick_from_stages, start, going-injective, Passed, tick-Found}
use swf4go.Fsm.Tick.Marker.{finish-Written}
use swf4go.Fsm.Tick.Runs.{Runs, each_event-Runs, Runs-each_event, stop_with-ne-going}

module _ {ℓ} {V : Type ℓ} (f : Fsm V) (task : PollForDecisionTaskResponse) where
  -- Where the events start from: the persisted state, with its data read.
  abbrev pub restored_loop : SerializedState → V → Loop V
  restored_loop saved value = (
    record zero_outcome {
      data_value = some value;
      state = saved.replication_data.state_name;
      state_version = saved.replication_data.state_version;
    },
    record (start f task saved).1 { state_version = saved.replication_data.state_version },
  )

  -- The state that a run leaves behind, by what serializing its data gave.
  abbrev pub state_after : Result String → Loop V → SerializedState
  state_after written m = marked_state m.0 m.1.pending_activities (text_or_empty written)

  -- A run from the persisted state, and what `Tick` makes of it.
  pub record Ticked (last_events : List HistoryEvent) (saved : SerializedState) (ds : List Decision)
      (new : SerializedState) : Type ℓ where
    pub serializer : StateSerializer V
    pub fresh : V
    pub value : V
    pub after : Loop V
    pub written : Result String
    pub details : String
    pub has_serializer : f.serializer ≡ some serializer
    pub has_data_type : f.data_type ≡ some fresh
    pub data_read :
        serializer.deserialize saved.replication_data.state_data fresh ≡ returns (ok value)
    pub run : Runs f (reverse last_events) (restored_loop saved value) after
    pub data_written : serializer.serialize (user_data after.0.data_value) ≡ returns written
    pub new_state : new ≡ state_after written after
    pub serialized : serializer.serialize (state new) ≡ returns (ok details)
    pub decisions : ds ≡ record_string_marker state_marker details ∷ after.0.decisions

  restored-eq-going :
      (saved : SerializedState) (l : Loop V) (r : Result V) (m : Loop V)
      → restored f task saved l.0 l.1 r ≡ returns (going m)
      → (value : V) × (r ≡ ok value)
        × (m ≡ (
          record l.0 {
            data_value = some value;
            state = saved.replication_data.state_name;
            state_version = saved.replication_data.state_version;
          },
          record l.1 { state_version = saved.replication_data.state_version },
        ))
  unfolding restored
  restored-eq-going saved l (ok value) m h = (value, refl, sym (going-injective h))
  restored-eq-going saved l (err e) m h = absurd (stop_with-ne-going f.allow_panics e _ _ h)

  recovered_start :
      (saved : SerializedState) (m : Loop V)
      → recover_state f task saved (start f task saved) ≡ returns (going m)
      → (s : StateSerializer V) × (fresh : V) × (value : V) × (f.serializer ≡ some s)
        × (f.data_type ≡ some fresh)
        × (s.deserialize saved.replication_data.state_data fresh ≡ returns (ok value))
        × (m ≡ restored_loop saved value)
  unfolding recover_state
  recovered_start saved m h =
      let (fresh, p₀, h₀) = bind-eq-returns (new_data f) _ h in
      let (s, p, h₁) = bind-eq-returns (deref f.serializer) _ h₀ in
      let (r, p₁, h₂) =
        bind-eq-returns (s.deserialize saved.replication_data.state_data fresh) _ h₁ in
      let (value, q, e) = restored-eq-going saved (start f task saved) r m h₂ in
      (
        s,
        fresh,
        value,
        deref-eq-returns f.serializer p,
        new_data-eq-returns f p₀,
        p₁ ∙ ap returns q,
        e,
      )

  start_recovered :
      (saved : SerializedState) (s : StateSerializer V) (fresh value : V)
      → f.serializer ≡ some s
      → f.data_type ≡ some fresh
      → s.deserialize saved.replication_data.state_data fresh ≡ returns (ok value)
      → recover_state f task saved (start f task saved)
        ≡ returns (going (restored_loop saved value))
  unfolding recover_state
  start_recovered saved s fresh value e t q = simp (new_data-returns f t, e, q)

  finish-state_after :
      (s : StateSerializer V) (m : Loop V) (written : Result String) (details : String)
      → f.serializer ≡ some s
      → s.serialize (user_data m.0.data_value) ≡ returns written
      → s.serialize (state (state_after written m)) ≡ returns (ok details)
      → finish f task m
        ≡ returns (
          record_string_marker state_marker details ∷ m.0.decisions,
          some (state_after written m),
        )
  unfolding finish
  finish-state_after s m written details e p q = simp (e, p, q)

  module _ (last_events : List HistoryEvent) (saved : SerializedState)
      (scanned : find_last_events task.previous_started_event_id task.events
        ≡ returns (last_events, []))
      (found : find_serialized_state f task.events ≡ returns (ok saved)) where
    Passed-Ticked :
        (ds : List Decision) (new : SerializedState)
        → Passed f task last_events [] saved ds new
        → Ticked last_events saved ds new
    Passed-Ticked ds new p =
        let same : p.handled ≡ start f task saved =
          sym (going-injective (unfold process_errors in p.errors)) in
        let (s, fresh, value, e, has_type, q, r) =
          recovered_start saved p.recovered
            (ap (recover_state f task saved) (sym same) ∙ p.recovery) in
        let w = finish-Written f task p.processed ds new p.result in
        let same_serializer : w.serializer ≡ s = some-injective (sym w.has_serializer ∙ e) in
        record {
          serializer = s;
          fresh = fresh;
          value = value;
          after = p.processed;
          written = w.written;
          details = w.details;
          has_serializer = e;
          has_data_type = has_type;
          data_read = q;
          run =
              subst (λ (l : Loop V). Runs f (reverse last_events) l p.processed) r
                (each_event-Runs f task.workflow_execution (reverse last_events) [] p.recovered
                  p.processed p.events);
          data_written =
              ap (λ (x : StateSerializer V). x.serialize (user_data p.processed.0.data_value))
                (sym same_serializer)
              ∙ w.data_written;
          new_state = w.new_state;
          serialized =
              ap (λ (x : StateSerializer V). x.serialize (state new)) (sym same_serializer)
              ∙ w.serialized;
          decisions = w.decisions;
        }

    -- For a task without error events, a state that is not nil comes from a run: every event decided in
    -- turn from the persisted state, and the marker of the new state before the decisions.
    pub tick-Ticked :
        (ds : List Decision) (new : SerializedState)
        → tick f task ≡ returns (ds, some new)
        → Ticked last_events saved ds new
    tick-Ticked ds new h =
        let p = tick-Found f task ds new h in
        let same = returns-injective (sym p.scanned ∙ scanned) in
        let last : p.last_events ≡ last_events =
          ap (λ (x : List HistoryEvent × List HistoryEvent). x.0) same in
        let errs : p.error_events ≡ [] =
          ap (λ (x : List HistoryEvent × List HistoryEvent). x.1) same in
        let old : p.saved ≡ saved = ok-injective (returns-injective (sym p.found ∙ found)) in
        Passed-Ticked ds new (
          subst₃ (λ (a b : List HistoryEvent) (c : SerializedState). Passed f task a b c ds new)
            last errs old p.passed)

    -- For a task without error events, every run from the persisted state whose new state can be
    -- serialized is what Tick returns.
    pub Ticked-tick :
        (ds : List Decision) (new : SerializedState)
        → Ticked last_events saved ds new
        → tick f task ≡ returns (ds, some new)
    unfolding tick
    Ticked-tick ds new t =
        rw (scanned, found)
          (tick_from_stages f task last_events [] saved (start f task saved)
              (restored_loop saved t.value) t.after refl
              (start_recovered saved t.serializer t.fresh t.value t.has_serializer t.has_data_type
                t.data_read)
              (Runs-each_event f task.workflow_execution [] t.run)
            ∙ finish-state_after t.serializer t.after t.written t.details t.has_serializer
                t.data_written
                (ap (λ (x : SerializedState). t.serializer.serialize (state x)) (sym t.new_state)
                  ∙ t.serialized)
            ∙ λ i. returns (sym t.decisions i, some (sym t.new_state i)))
