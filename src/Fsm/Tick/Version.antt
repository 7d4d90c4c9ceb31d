-- ===== src/Fsm/Tick/Version.antt =====
-- The version in the persisted state (fsm.go, lines 291 to 326 and 540).
use swf4go.Prelude.{ℕ, ◌+◌, ◌%◌, ◌^◌, ◌≡◌, refl, sym, ap, ◌∙◌, Option, some, List, [], ◌∷◌, reverse}
use swf4go.Go.{Result, ok, err, returns, bind-eq-returns, returns-injective}
use swf4go.Protocol.Decision.{Decision}
use swf4go.Protocol.HistoryEvent.{HistoryEvent}
use swf4go.Protocol.Workers.{PollForDecisionTaskResponse}
use swf4go.Fsm.Outcome.{IntermediateOutcome, Outcome, outcome_data, merge_outcomes}
use swf4go.Fsm.Serialization.{SerializedState}
use swf4go.Fsm.Context.{FsmContext, FsmState}
use swf4go.Fsm.Machine.{Fsm, new_data}
use swf4go.Fsm.History.{find_last_events, find_serialized_state}
use swf4go.Fsm.Capture.{capture_decision_error, marked_state}
use swf4go.Fsm.Tick.{
  going, Loop, panic_safe_decide, error_decided, error_step, each_event, process_errors,
  recover_state, tick,
}
use swf4go.Fsm.Tick.Stages.{start, going-injective, each_event-keeps, tick-Found}
use swf4go.Fsm.Tick.Marker.{finish-Written}
use swf4go.Fsm.Tick.Runs.{
  merged, Runs-state_version, each_event-Runs, stopped-ne-going, recover-eq-ok, decide-eq-returns,
  merge_outcomes-eq-returns,
}
use swf4go.Fsm.Tick.Refinement.{tick-Ticked}

module _ {ℓ} {V : Type ℓ} (f : Fsm V) (task : PollForDecisionTaskResponse) where
  -- For a task without error events, the version of a state that Tick returns is one more, in 64 bits,
  -- than the version that it found in the history.
  pub state_version-tick :
      (last_events : List HistoryEvent) (saved new : SerializedState) (ds : List Decision)
      → find_last_events task.previous_started_event_id task.events ≡ returns (last_events, [])
      → find_serialized_state f task.events ≡ returns (ok saved)
      → tick f task ≡ returns (ds, some new)
      → new.replication_data.state_version ≡ (saved.replication_data.state_version + 1) % 2 ^ 64
  unfolding marked_state
  state_version-tick last_events saved new ds scanned found h =
      let t = tick-Ticked f task last_events saved scanned found ds new h in
      ap (λ (x : SerializedState). x.replication_data.state_version) t.new_state
      ∙ ap (λ (n : ℕ). (n + 1) % 2 ^ 64) (Runs-state_version t.run)

  error_decided-merged :
      (e : HistoryEvent) (older : List HistoryEvent) (l m : Loop V) (s : FsmState V)
      (r : Result (Option (Outcome V) × FsmContext V))
      → panic_safe_decide f task.workflow_execution s l.1 e l.0.data_value ≡ returns r
      → error_decided f task.workflow_execution e older l.0 r ≡ returns (going m)
      → (o : Outcome V) × (s.decider l.1 e l.0.data_value ≡ returns (some o)) × (m.0 ≡ merged l.0 o)
  unfolding error_decided
  error_decided-merged e older l m s (err error) p h = absurd (
      stopped-ne-going l.0.decisions
        (capture_decision_error f task.workflow_execution e older l.0.state l.0.data_value error) h)
  error_decided-merged e older l m s (ok (an_outcome, context)) p h =
      let (pending, d, t, c) =
        decide-eq-returns l.1 e l.0.data_value s.decider an_outcome context
          (recover-eq-ok f.allow_panics _ (unfold panic_safe_decide in p)) in
      let (m', q, h₁) = bind-eq-returns (merge_outcomes l.0 an_outcome) _ h in
      let (o, has_outcome, mo) = merge_outcomes-eq-returns l.0 m' an_outcome q in
      (o, d ∙ ap returns has_outcome, ap (λ (x : Loop V). x.0) (sym (going-injective h₁)) ∙ mo)

  error_step-merged :
      (s : FsmState V) (e : HistoryEvent) (older : List HistoryEvent) (l m : Loop V)
      → error_step f task.workflow_execution s e older l ≡ returns (going m)
      → (o : Outcome V) × (s.decider l.1 e l.0.data_value ≡ returns (some o)) × (m.0 ≡ merged l.0 o)
  unfolding error_step
  error_step-merged s e older l m h =
      let (r, p, q) =
        bind-eq-returns (panic_safe_decide f task.workflow_execution s l.1 e l.0.data_value) _ h in
      error_decided-merged e older l m s r p q

  module _ (s : FsmState V) (has_error_state : f.error_state ≡ some s)
      (keeps_data : (context : FsmContext V) (e : HistoryEvent) (x : V) (o : Outcome V)
        → s.decider context e (some x) ≡ returns (some o)
        → (y : V) × (outcome_data o ≡ some y)) where
    -- no version, and some data
    abbrev Reset : Loop V → Type ℓ
    Reset l = (x : V) × (l.0.data_value ≡ some x) × (l.0.state_version ≡ 0)

    error_step-Reset :
        (e : HistoryEvent) (older : List HistoryEvent) (l m : Loop V)
        → error_step f task.workflow_execution s e older l ≡ returns (going m)
        → Reset l
        → Reset m
    error_step-Reset e older l m h (x, has, zero_version) =
        let (o, d, mo) = error_step-merged s e older l m h in
        let (y, found) =
          keeps_data l.1 e x o (ap (λ (v : Option V). s.decider l.1 e v) (sym has) ∙ d) in
        (
          y,
          ap (λ (x : IntermediateOutcome V). x.data_value) mo ∙ found,
          ap (λ (x : IntermediateOutcome V). x.state_version) mo ∙ zero_version,
        )

    process_errors-each :
        (e : HistoryEvent) (es : List HistoryEvent) (l m : Loop V)
        → process_errors f task (e ∷ es) l ≡ returns (going m)
        → (fresh : V) × (each_event (error_step f task.workflow_execution s) (reverse (e ∷ es)) [] (
          record l.0 { data_value = some fresh; state = s.name },
          record l.1 { state = s.name; state_data = some fresh },
        )
            ≡ returns (going m))
    unfolding process_errors
    process_errors-each e es l m h =
        let (fresh, p, q) = bind-eq-returns (new_data f) _ h in (fresh, rw has_error_state at q)

    not_restored :
        (saved : SerializedState) (l m : Loop V)
        → recover_state f task saved l ≡ returns (going m)
        → Reset l
        → m.0.state_version ≡ 0
    unfolding recover_state
    not_restored saved l m h (x, has, zero_version) =
        let kept : recover_state f task saved l ≡ returns (going l) =
          rw (has, recover_state) refl in
        ap (λ (y : Loop V). y.0.state_version) (sym (going-injective (sym kept ∙ h))) ∙ zero_version

    -- With an error state whose decider returns data, a task with error events restarts the version
    -- at 1, whatever it was.
    pub state_version-error :
        (e : HistoryEvent) (es last_events : List HistoryEvent) (new : SerializedState)
        (ds : List Decision)
        → find_last_events task.previous_started_event_id task.events
          ≡ returns (last_events, e ∷ es)
        → tick f task ≡ returns (ds, some new)
        → new.replication_data.state_version ≡ 1
    unfolding marked_state
    state_version-error e es last_events new ds scanned h =
        let found = tick-Found f task ds new h in
        let p = found.passed in
        let errs : found.error_events ≡ e ∷ es =
          ap (λ (x : List HistoryEvent × List HistoryEvent). x.1)
            (returns-injective (sym found.scanned ∙ scanned)) in
        let first = start f task found.saved in
        let (fresh, looped) =
          process_errors-each e es first p.handled
            (ap (λ (x : List HistoryEvent). process_errors f task x first) (sym errs) ∙ p.errors) in
        let kept =
          each_event-keeps (error_step f task.workflow_execution s) Reset error_step-Reset
            (reverse (e ∷ es)) []
            (
              record first.0 { data_value = some fresh; state = s.name },
              record first.1 { state = s.name; state_data = some fresh },
            )
            p.handled looped (fresh, refl, refl) in
        let run =
          each_event-Runs f task.workflow_execution (reverse found.last_events) [] p.recovered
            p.processed p.events in
        let w = finish-Written f task p.processed ds new p.result in
        ap (λ (x : SerializedState). x.replication_data.state_version) w.new_state
        ∙ ap (λ (n : ℕ). (n + 1) % 2 ^ 64)
            (Runs-state_version run
              ∙ not_restored found.saved p.handled p.recovered p.recovery kept)
