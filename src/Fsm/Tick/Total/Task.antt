-- ===== src/Fsm/Tick/Total/Task.antt =====
-- Panics in `Tick` as a whole (fsm.go, lines 270 to 370).
use swf4go.Prelude.{
  ◌≡◌, sym, subst, some-injective, ◌∙◌, refl, ap, Bool, true, false, Option, List, [], ◌∷◌, reverse,
  All, Bool-cases, inl, inr, until,
}
use swf4go.Go.{Result, ok, err, Exec, ◌>>=◌, deref, deref-eq-returns, Returns, bind-Returns}
use swf4go.Protocol.Decision.{Decision}
use swf4go.Protocol.HistoryEvent.{HistoryEvent}
use swf4go.Protocol.Workers.{PollForDecisionTaskResponse}
use swf4go.Fsm.Outcome.{IntermediateOutcome}
use swf4go.Fsm.Serialization.{SerializedState, StateSerializer}
use swf4go.Fsm.Context.{FsmContext}
use swf4go.Fsm.Machine.{Fsm, new_data-returns}
use swf4go.Fsm.Capture.{record_state_marker}
use swf4go.Fsm.Capture.Totality.{IsCalm, record_state_marker-Returns}
use swf4go.Fsm.History.{find_last_events, find_serialized_state}
use swf4go.Fsm.History.Finding.{find_serialized_state-Returns}
use swf4go.Fsm.History.Scan.{HasAttributes, find_last_events-keep}
use swf4go.Fsm.Tick.{
  Progress, going, stopped, Loop, give_up, error_step, event_step, each_event, process_errors,
  restored, restore, is_unset, recover_state, finished, finish, or_stop, tick_from, tick_found,
  tick,
}
use swf4go.Fsm.Tick.Stages.{start}
use swf4go.Fsm.Tick.Total.{
  IsReady, give_up-Returns, stop_with-Returns, each_event-Returns, system_error_captured,
  error_step-Returns, event_step-Returns,
}

All-until {ℓ κ} :
    {A : Type ℓ} (P : A → Type κ) (test : A → Bool) (xs : List A) → All P xs → All P (until test xs)
All-until {A = A} P test [] h = h
All-until {A = A} P test (x ∷ xs) h = All-until_at (test x) (All-until P test xs h.1)
  where
    All-until_at :
        (b : Bool)
        → All P (until test xs)
        → All P (elim b as (λ _. List A) [ true ↦ [] | false ↦ x ∷ until test xs ])
    All-until_at true rest = tt
    All-until_at false rest = (h.0, rest)

module _ {ℓ} {V : Type ℓ} (f : Fsm V) (ready : IsReady f) (task : PollForDecisionTaskResponse) where
  process_errors-Returns :
      (error_events : List HistoryEvent) (l : Loop V)
      → Returns (process_errors f task error_events l)
  unfolding process_errors
  process_errors-Returns [] l = (_, refl)
  process_errors-Returns (e ∷ es) l =
      rw (new_data-returns f ready.has_data_type, ready.has_error)
        (each_event-Returns (error_step f task.workflow_execution ready.error)
          (error_step-Returns f ready task.workflow_execution) (reverse (e ∷ es)) [] _)

  restored-Returns :
      (saved : SerializedState) (outcome : IntermediateOutcome V) (c : FsmContext V) (r : Result V)
      → Returns (restored f task saved outcome c r)
  unfolding restored
  restored-Returns saved outcome c (ok v) = (_, refl)
  restored-Returns saved outcome c (err e) =
      stop_with-Returns f.allow_panics e outcome.decisions _ ready.recovers
        (system_error_captured f ready task.workflow_execution _ task.events e)

  calm_restored :
      (saved : SerializedState) (l : Loop V) (s : StateSerializer V)
      → ready.serializer ≡ s
      → Returns (
          s.deserialize saved.replication_data.state_data ready.fresh
          >>= restored f task saved l.0 l.1)
  calm_restored saved l s same =
      bind-Returns (s.deserialize saved.replication_data.state_data ready.fresh) _
        ((subst IsCalm same ready.calm).reads_data saved.replication_data.state_data ready.fresh)
        (λ r _. restored-Returns saved l.0 l.1 r)

  recover_state-Returns :
      (saved : SerializedState) (l : Loop V) → Returns (recover_state f task saved l)
  unfolding recover_state restore
  recover_state-Returns saved l = elim (Bool-cases (is_unset f task l.0)) [
    | inl unset ↦
        rw (unset, new_data-returns f ready.has_data_type)
          (bind-Returns (deref f.serializer) _ (ready.serializer, ap deref ready.has_serializer)
            (λ s has.
              calm_restored saved l s
                (some-injective (sym ready.has_serializer ∙ deref-eq-returns f.serializer has))))
    | inr set ↦ rw set (_, refl)
  ]

  finished-Returns :
      (decisions : List Decision) (r : Result (List Decision × SerializedState))
      → Returns (finished f task decisions r)
  unfolding finished
  finished-Returns decisions (ok (final, saved)) = (_, refl)
  finished-Returns decisions (err e) =
      bind-Returns (give_up f.allow_panics e decisions _) _
        (give_up-Returns f.allow_panics e decisions _ ready.recovers
          (system_error_captured f ready task.workflow_execution _ [] e))
        (λ ds _. (_, refl))

  finish-Returns : (l : Loop V) → Returns (finish f task l)
  unfolding finish
  finish-Returns l =
      bind-Returns (record_state_marker f l.0 l.1.pending_activities) _
        (record_state_marker-Returns f ready.serializer ready.has_serializer task.workflow_execution
          ready.calm l.0 l.1.pending_activities)
        (λ r _. finished-Returns l.0.decisions r)

  or_stop-Returns :
      (p : Progress (Loop V)) (k : Loop V → Exec (List Decision × Option SerializedState))
      → ((l : Loop V) → Returns (k l))
      → Returns (or_stop f task p k)
  unfolding or_stop
  or_stop-Returns (stopped ds) k next = (_, refl)
  or_stop-Returns (going l) k next = next l

  tick_from-Returns :
      (last_events error_events : List HistoryEvent) (saved : SerializedState)
      → Returns (tick_from f task last_events error_events saved)
  unfolding tick_from
  tick_from-Returns last_events error_events saved =
      bind-Returns (process_errors f task error_events (start f task saved)) _
        (process_errors-Returns error_events (start f task saved))
        (λ p _. or_stop-Returns p _ (λ l.
          bind-Returns (recover_state f task saved l) _ (recover_state-Returns saved l) (λ q _.
            or_stop-Returns q _ (λ l'.
              bind-Returns
                (each_event (event_step f task.workflow_execution) (reverse last_events) [] l') _
                (each_event-Returns (event_step f task.workflow_execution)
                  (event_step-Returns f ready task.workflow_execution) (reverse last_events) [] l')
                (λ r _. or_stop-Returns r (finish f task) finish-Returns)))))

  tick_found-Returns :
      (last_events error_events : List HistoryEvent) (r : Result SerializedState)
      → Returns (tick_found f task last_events error_events r)
  unfolding tick_found
  tick_found-Returns last_events error_events (ok saved) =
      tick_from-Returns last_events error_events saved
  tick_found-Returns last_events error_events (err e) =
      bind-Returns (give_up f.allow_panics e [] _) _
        (give_up-Returns f.allow_panics e [] _ ready.recovers
          (system_error_captured f ready task.workflow_execution _ task.events e))
        (λ ds _. (_, refl))

  -- A Tick of an FSM that recovers from panics, with a DataType that is not nil, a serializer that never
  -- panics on data and states and that writes the FSM's errors, an initial and an error state, and
  -- deciders that never return Pass, returns without a panic on every task whose events come with
  -- their attributes, even where its deciders panic.
  pub tick-Returns : All HasAttributes task.events → Returns (tick f task)
  unfolding tick
  tick-Returns w =
      bind-Returns (find_last_events task.previous_started_event_id task.events) _
        (
          _,
          find_last_events-keep task.previous_started_event_id task.events
              (All-until HasAttributes _ task.events w),
        )
        (λ found _.
          bind-Returns (find_serialized_state f task.events) _
            (find_serialized_state-Returns f ready.serializer ready.has_serializer
              ready.calm.reads_states ready.initial ready.has_initial task.events w)
            (λ r _. tick_found-Returns found.0 found.1 r))
