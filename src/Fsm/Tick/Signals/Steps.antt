-- ===== src/Fsm/Tick/Signals/Steps.antt =====
-- The early returns of the steps of `Tick` (fsm.go, lines 298 to 353).
use swf4go.Prelude.{
  String, ◌≡◌, refl, ap, subst, ◌∙◌, ◌⊎◌, inl, inr, Bool, true, false, Option, none, some, List, [],
  ◌∷◌, ◌++◌, if◌then◌else◌,
}
use swf4go.Go.{
  GoError, Result, ok, err, Exec, returns, panics, ◌>>=◌, bind-eq-returns, returns-injective,
}
use swf4go.Protocol.Common.{WorkflowExecution}
use swf4go.Protocol.Decision.{Decision}
use swf4go.Protocol.HistoryEvent.{HistoryEvent}
use swf4go.Fsm.Outcome.{Outcome, IntermediateOutcome, merge_outcomes}
use swf4go.Fsm.Serialization.{SerializedState}
use swf4go.Fsm.Context.{FsmContext, FsmState}
use swf4go.Fsm.Machine.{Fsm, error_signal, system_error_signal}
use swf4go.Fsm.Capture.{error_signal_decision, capture_decision_error, capture_system_error}
use swf4go.Fsm.Capture.Inversion.{
  Signalled, capture_decision_error-Signalled, capture_system_error-Signalled,
}
use swf4go.Correlator.{track}
use swf4go.Fsm.Tick.{
  Progress, going, stopped, Loop, give_up, stop_with, panic_safe_decide, error_decided, error_step,
  state_decided, in_state, event_step, state_named,
}

stopped-injective {ℓ} :
    {A : Type ℓ} {a b : List Decision}
    → ◌≡◌ {A = Exec (Progress A)} (returns (stopped a)) (returns (stopped b))
    → a ≡ b
stopped-injective h = cc

module _ (execution : WorkflowExecution) where
  -- The decisions end in a signal to this execution, by one of the two error signals.
  pub record EndsInSignal (ds : List Decision) : Type 0 where
    pub before : List Decision
    pub signal : String
    pub details : String
    pub named : (signal ≡ error_signal) ⊎ (signal ≡ system_error_signal)
    pub decisions : ds ≡ before ++ error_signal_decision signal execution details ∷ []

  ends :
      (before more : List Decision) (signal : String)
      → (signal ≡ error_signal) ⊎ (signal ≡ system_error_signal)
      → Signalled signal execution more
      → EndsInSignal (before ++ more)
  ends before more signal named s = record {
    before = before;
    signal = signal;
    details = s.details;
    named = named;
    decisions = ap (λ (x : List Decision). before ++ x) s.decisions;
  }

  -- what a capture is known to return
  abbrev pub Captures : Exec (List Decision) → Type 0
  Captures m =
      (more : List Decision)
      → m ≡ returns more
      → (signal : String) × ((signal ≡ error_signal) ⊎ (signal ≡ system_error_signal))
        × Signalled signal execution more

  append_ends :
      (before : List Decision) (m : Exec (List Decision)) (ds : List Decision)
      → Captures m
      → (m >>= λ more. returns (before ++ more)) ≡ returns ds
      → EndsInSignal ds
  append_ends before (returns more) ds c h =
      let (signal, named, s) = c more refl in
      subst EndsInSignal (returns-injective h) (ends before more signal named s)
  append_ends before (panics p) ds c h = cc

  give_up_ends :
      (b : Bool) (e : GoError) (before : List Decision) (m : Exec (List Decision))
      (ds : List Decision)
      → Captures m
      → give_up b e before m ≡ returns ds
      → EndsInSignal ds
  unfolding give_up
  give_up_ends true e before m ds c h = cc
  give_up_ends false e before m ds c h = append_ends before m ds c h

  stopped_ends {ℓ} :
      {A : Type ℓ} (before : List Decision) (m : Exec (List Decision)) (ds : List Decision)
      → Captures m
      → ◌≡◌ {A = Exec (Progress A)}
          (m >>= λ more. returns (stopped (before ++ more)))
          (returns (stopped ds))
      → EndsInSignal ds
  stopped_ends before (returns more) ds c h =
      append_ends before (returns more) ds c (ap returns (stopped-injective h))
  stopped_ends before (panics p) ds c h = cc

  pub stop_with_ends {ℓ} :
      {A : Type ℓ} (b : Bool) (e : GoError) (before : List Decision) (m : Exec (List Decision))
      (ds : List Decision)
      → Captures m
      → ◌≡◌ {A = Exec (Progress A)} (stop_with b e before m) (returns (stopped ds))
      → EndsInSignal ds
  unfolding stop_with
  stop_with_ends true e before m ds c h = cc
  stop_with_ends false e before (returns more) ds c h = stopped_ends before (returns more) ds c h
  stop_with_ends false e before (panics p) ds c h = cc

  pub returned_ends :
      (b : Bool) (e : GoError) (before : List Decision) (m : Exec (List Decision))
      (ds : List Decision)
      → Captures m
      → ◌≡◌ {A = Exec (List Decision × Option SerializedState)}
          (give_up b e before m >>= λ ds'. returns (ds', none))
          (returns (ds, none))
      → EndsInSignal ds
  returned_ends b e before m ds c h =
      let (ds', p, q) = bind-eq-returns (give_up b e before m) _ h in
      give_up_ends b e before m ds c
        (p ∙ ap (λ (x : List Decision × Option SerializedState). returns x.0) (returns-injective q))

pub if-cases {ℓ} :
    {A : Type ℓ} (b : Bool) (x y : A) {z : A} → (if b then x else y) ≡ z → (x ≡ z) ⊎ (y ≡ z)
if-cases true x y h = inl h
if-cases false x y h = inr h

pub going-ne-stopped {ℓ} :
    {A : Type ℓ} {a : A} {ds : List Decision} → returns (going a) ≡ returns (stopped ds) → ⊥
going-ne-stopped h = cc

module _ {ℓ} {V : Type ℓ} (f : Fsm V) (execution : WorkflowExecution) where
  decision_error-Captures :
      (e : HistoryEvent) (older : List HistoryEvent) (name : String) (v : Option V)
      (error : GoError)
      → Captures execution (capture_decision_error f execution e older name v error)
  decision_error-Captures e older name v error more h = (
    error_signal,
    inl refl,
    capture_decision_error-Signalled f execution e older name v error more h,
  )

  pub system_error-Captures :
      (type : String) (events : List HistoryEvent) (error : GoError)
      → Captures execution (capture_system_error f execution type events error)
  system_error-Captures type events error more h = (
    system_error_signal,
    inr refl,
    capture_system_error-Signalled f execution type events error more h,
  )

  error_decided_ends :
      (e : HistoryEvent) (older : List HistoryEvent) (outcome : IntermediateOutcome V)
      (r : Result (Option (Outcome V) × FsmContext V)) (ds : List Decision)
      → error_decided f execution e older outcome r ≡ returns (stopped ds)
      → EndsInSignal execution ds
  unfolding error_decided
  error_decided_ends e older outcome (err error) ds h =
      stopped_ends execution outcome.decisions _ ds
        (decision_error-Captures e older outcome.state outcome.data_value error) h
  error_decided_ends e older outcome (ok (o, c)) ds h =
      let (m, p, q) = bind-eq-returns (merge_outcomes outcome o) _ h in cc q

  pub error_step_ends :
      (s : FsmState V) (e : HistoryEvent) (older : List HistoryEvent) (l : Loop V)
      (ds : List Decision)
      → error_step f execution s e older l ≡ returns (stopped ds)
      → EndsInSignal execution ds
  unfolding error_step
  error_step_ends s e older l ds h =
      let (r, p, q) = bind-eq-returns (panic_safe_decide f execution s l.1 e l.0.data_value) _ h in
      error_decided_ends e older l.0 r ds q

  state_decided_ends :
      (e : HistoryEvent) (older : List HistoryEvent) (outcome : IntermediateOutcome V)
      (r : Result (Option (Outcome V) × FsmContext V)) (ds : List Decision)
      → state_decided f execution e older outcome r ≡ returns (stopped ds)
      → EndsInSignal execution ds
  unfolding state_decided
  state_decided_ends e older outcome (err error) ds h =
      stop_with_ends execution f.allow_panics error outcome.decisions _ ds
        (decision_error-Captures e older outcome.state outcome.data_value error) h
  state_decided_ends e older outcome (ok (o, c)) ds h =
      let (pending, t, h₁) = bind-eq-returns (track c.pending_activities e) _ h in
      let (m, p, q) = bind-eq-returns (merge_outcomes outcome o) _ h₁ in cc q

  in_state_ends :
      (o : Option (FsmState V)) (e : HistoryEvent) (older : List HistoryEvent) (l : Loop V)
      (ds : List Decision)
      → in_state f execution o e older l ≡ returns (stopped ds)
      → EndsInSignal execution ds
  unfolding in_state
  in_state_ends (some s) e older l ds h =
      let (r, p, q) =
        bind-eq-returns
          (panic_safe_decide f execution s
            (record l.1 { state = l.0.state; state_data = l.0.data_value }) e l.0.data_value)
          _ h in
      state_decided_ends e older l.0 r ds q
  in_state_ends none e older l ds h =
      stopped_ends execution l.0.decisions _ ds (system_error-Captures _ (e ∷ older) _) h

  pub event_step_ends :
      (e : HistoryEvent) (older : List HistoryEvent) (l : Loop V) (ds : List Decision)
      → event_step f execution e older l ≡ returns (stopped ds)
      → EndsInSignal execution ds
  unfolding event_step
  event_step_ends e older l ds h = in_state_ends (state_named f.states l.0.state) e older l ds h
