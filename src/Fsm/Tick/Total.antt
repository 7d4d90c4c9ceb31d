-- ===== src/Fsm/Tick/Total.antt =====
-- Panics in the parts of `Tick` (fsm.go, lines 270 to 399).
pub mod Task
use swf4go.Prelude.{
  ◌≡◌, refl, sym, ap, ◌∙◌, ◌⊎◌, inl, inr, String, Bool, true, false, Option, none, some, List, [],
  ◌∷◌, ◌++◌, reverse, if◌then◌else◌, All, Bool-cases, keep, until, eqb,
}
use swf4go.Go.{
  GoError, errors_new, Result, ok, err, Exec, returns, panics, ◌>>=◌, deref, Returns, bind-Returns,
}
use swf4go.Protocol.Common.{WorkflowExecution}
use swf4go.Protocol.Decision.{Decision}
use swf4go.Protocol.HistoryEvent.{HistoryEvent}
use swf4go.Protocol.Workers.{PollForDecisionTaskResponse}
use swf4go.Correlator.{track}
use swf4go.Correlator.Laws.{track-track}
use swf4go.Fsm.Outcome.{Outcome, IntermediateOutcome, merge_outcomes}
use swf4go.Fsm.Serialization.{SerializedState, StateSerializer}
use swf4go.Fsm.Context.{FsmContext, FsmState}
use swf4go.Fsm.Machine.{Fsm, initial_state_name}
use swf4go.Fsm.Capture.{capture_decision_error, capture_system_error, record_state_marker}
use swf4go.Fsm.Capture.Totality.{
  WritesErrors, IsCalm, capture_decision_error-Returns, capture_system_error-Returns,
  record_state_marker-Returns,
}
use swf4go.Fsm.Tick.{
  Progress, going, stopped, Loop, recover, give_up, stop_with, state_named, panic_safe_decide,
  error_decided, error_step, state_decided, in_state, event_step, continue_with, each_event,
  process_errors, restored, restore, is_unset, recover_state, finished, finish, or_stop, tick_from,
  tick_found, tick,
}
use swf4go.Fsm.Tick.Runs.{asked, decide-eq-returns, recover-eq-ok}
use swf4go.Fsm.Tick.Stages.{start}

recover-Returns {ℓ} : {A : Type ℓ} (b : Bool) (m : Exec A) → b ≡ false → Returns (recover b m)
unfolding recover
recover-Returns false (returns a) e = (_, refl)
recover-Returns false (panics p) e = (_, refl)
recover-Returns true m e = cc

pub give_up-Returns :
    (b : Bool) (e : GoError) (ds : List Decision) (m : Exec (List Decision))
    → b ≡ false
    → Returns m
    → Returns (give_up b e ds m)
unfolding give_up
give_up-Returns false e ds m n r = bind-Returns m _ r (λ more _. (_, refl))
give_up-Returns true e ds m n r = cc

pub stop_with-Returns {ℓ} :
    {A : Type ℓ} (b : Bool) (e : GoError) (ds : List Decision) (m : Exec (List Decision))
    → b ≡ false
    → Returns m
    → Returns (stop_with {A = A} b e ds m)
unfolding stop_with
stop_with-Returns b e ds m n r =
    bind-Returns (give_up b e ds m) _ (give_up-Returns b e ds m n r) (λ more _. (_, refl))

continue_with-Returns {ℓ} :
    {A : Type ℓ} (p : Progress A) (k : A → Exec (Progress A))
    → ((a : A) → Returns (k a))
    → Returns (continue_with p k)
continue_with-Returns (going a) k next = next a
continue_with-Returns (stopped ds) k next = (_, refl)

module _ {ℓ} {A : Type ℓ} (step : HistoryEvent → List HistoryEvent → A → Exec (Progress A))
    (step-Returns : (e : HistoryEvent) (older : List HistoryEvent) (a : A)
      → Returns (step e older a)) where
  pub each_event-Returns :
      (es older : List HistoryEvent) (a : A) → Returns (each_event step es older a)
  unfolding each_event
  each_event-Returns [] older a = (_, refl)
  each_event-Returns (e ∷ es) older a =
      bind-Returns (step e older a) _ (step-Returns e older a)
        (λ p _. continue_with-Returns p _ (λ a'. each_event-Returns es (e ∷ older) a'))

-- The decider never returns Pass. It may panic.
abbrev pub Decides {ℓ} : {V : Type ℓ} → FsmState V → Type ℓ
Decides {V = V} s =
    (context : FsmContext V) (e : HistoryEvent) (v : Option V) (o : Option (Outcome V))
    → s.decider context e v ≡ returns o
    → (x : Outcome V) × (o ≡ some x)

-- An FSM that recovers from panics, with a DataType that is not nil, a serializer that never panics and
-- that writes the FSM's errors, an initial state, an error state, and deciders that never return Pass.
pub record IsReady {ℓ} {V : Type ℓ} (f : Fsm V) : Type ℓ where
  pub recovers : f.allow_panics ≡ false
  pub fresh : V
  pub has_data_type : f.data_type ≡ some fresh
  pub serializer : StateSerializer V
  pub has_serializer : f.serializer ≡ some serializer
  pub writes_errors : WritesErrors serializer
  pub calm : IsCalm serializer
  pub initial : FsmState V
  pub has_initial : f.initial_state ≡ some initial
  pub error : FsmState V
  pub has_error : f.error_state ≡ some error
  pub error_decides : Decides error
  pub state_decides :
      (name : String) (s : FsmState V) → state_named f.states name ≡ some s → Decides s

module _ {ℓ} {V : Type ℓ} (f : Fsm V) (ready : IsReady f) (execution : WorkflowExecution) where
  decision_error_captured :
      (e : HistoryEvent) (after : List HistoryEvent) (name : String) (v : Option V)
      (error : GoError)
      → Returns (capture_decision_error f execution e after name v error)
  decision_error_captured =
      capture_decision_error-Returns f ready.serializer ready.has_serializer execution
        ready.writes_errors

  pub system_error_captured :
      (type : String) (events : List HistoryEvent) (error : GoError)
      → Returns (capture_system_error f execution type events error)
  system_error_captured =
      capture_system_error-Returns f ready.serializer ready.has_serializer execution
        ready.writes_errors

  -- what a decider that did not panic leaves to the loops
  decided-some :
      (s : FsmState V) (context c : FsmContext V) (e : HistoryEvent) (v : Option V)
      (o : Option (Outcome V))
      → Decides s
      → panic_safe_decide f execution s context e v ≡ returns (ok (o, c))
      → ((x : Outcome V) × (o ≡ some x)) × Returns (track c.pending_activities e)
  unfolding panic_safe_decide
  decided-some s context c e v o decides p =
      let (pending, d, t, same) =
        decide-eq-returns context e v s.decider o c (recover-eq-ok f.allow_panics _ p) in
      (
        decides context e v o d,
        (
          pending,
          ap (λ (x : FsmContext V). track x.pending_activities e) same
              ∙ track-track context.pending_activities pending e t,
        ),
      )

  merge_outcomes-Returns :
      (outcome : IntermediateOutcome V) (o : Option (Outcome V))
      → (x : Outcome V) × (o ≡ some x)
      → Returns (merge_outcomes outcome o)
  unfolding merge_outcomes
  merge_outcomes-Returns outcome o (x, e) = rw e (_, refl)

  error_decided-Returns :
      (s : FsmState V) (context : FsmContext V) (e : HistoryEvent) (older : List HistoryEvent)
      (outcome : IntermediateOutcome V) (v : Option V)
      (r : Result (Option (Outcome V) × FsmContext V))
      → Decides s
      → panic_safe_decide f execution s context e v ≡ returns r
      → Returns (error_decided f execution e older outcome r)
  unfolding error_decided
  error_decided-Returns s context e older outcome v (err error) decides p =
      bind-Returns
        (capture_decision_error f execution e older outcome.state outcome.data_value error) _
        (decision_error_captured e older outcome.state outcome.data_value error)
        (λ more _. (_, refl))
  error_decided-Returns s context e older outcome v (ok (o, c)) decides p =
      bind-Returns (merge_outcomes outcome o) _
        (merge_outcomes-Returns outcome o (decided-some s context c e v o decides p).0)
        (λ m _. (_, refl))

  pub error_step-Returns :
      (e : HistoryEvent) (older : List HistoryEvent) (l : Loop V)
      → Returns (error_step f execution ready.error e older l)
  unfolding error_step
  error_step-Returns e older (outcome, context) =
      bind-Returns (panic_safe_decide f execution ready.error context e outcome.data_value) _
        (unfold panic_safe_decide in recover-Returns f.allow_panics _ ready.recovers)
        (λ r p.
          error_decided-Returns ready.error context e older outcome outcome.data_value r
            ready.error_decides p)

  state_decided-Returns :
      (s : FsmState V) (context : FsmContext V) (e : HistoryEvent) (older : List HistoryEvent)
      (outcome : IntermediateOutcome V) (v : Option V)
      (r : Result (Option (Outcome V) × FsmContext V))
      → Decides s
      → panic_safe_decide f execution s context e v ≡ returns r
      → Returns (state_decided f execution e older outcome r)
  unfolding state_decided
  state_decided-Returns s context e older outcome v (err error) decides p =
      stop_with-Returns f.allow_panics error outcome.decisions _ ready.recovers
        (decision_error_captured e older outcome.state outcome.data_value error)
  state_decided-Returns s context e older outcome v (ok (o, c)) decides p =
      let (has, tracked) = decided-some s context c e v o decides p in
      bind-Returns (track c.pending_activities e) _ tracked (λ pending _.
        bind-Returns (merge_outcomes outcome o) _ (merge_outcomes-Returns outcome o has)
          (λ m _. (_, refl)))

  in_state-Returns :
      (name : String) (s : Option (FsmState V)) (e : HistoryEvent) (older : List HistoryEvent)
      (l : Loop V)
      → state_named f.states name ≡ s
      → Returns (in_state f execution s e older l)
  unfolding in_state
  in_state-Returns name (some s) e older l has =
      bind-Returns (panic_safe_decide f execution s (asked l) e l.0.data_value) _
        (unfold panic_safe_decide in recover-Returns f.allow_panics _ ready.recovers)
        (λ r p.
          state_decided-Returns s (asked l) e older l.0 l.0.data_value r
            (ready.state_decides name s has) p)
  in_state-Returns name none e older l has =
      bind-Returns
        (capture_system_error f execution "MissingFsmStateError" (e ∷ older) (errors_new l.0.state))
        _ (system_error_captured _ (e ∷ older) _) (λ more _. (_, refl))

  pub event_step-Returns :
      (e : HistoryEvent) (older : List HistoryEvent) (l : Loop V)
      → Returns (event_step f execution e older l)
  unfolding event_step
  event_step-Returns e older l = in_state-Returns l.0.state _ e older l refl
