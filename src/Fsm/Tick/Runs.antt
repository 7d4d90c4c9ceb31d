-- ===== src/Fsm/Tick/Runs.antt =====
-- The loop over the events against a relation that says what one decided event does: which decider is
-- asked, with which state and data, and how its outcome changes both.
use swf4go.Prelude.{
  ◌≡◌, refl, sym, ap, subst, ◌∙◌, Bool, true, false, Option, none, some, List, [], ◌∷◌, ◌++◌,
}
use swf4go.Go.{
  GoError, Result, ok, err, Exec, returns, panics, ◌>>=◌, bind-eq-returns, returns-injective,
}
use swf4go.Protocol.Common.{WorkflowExecution}
use swf4go.Protocol.Decision.{Decision}
use swf4go.Protocol.HistoryEvent.{HistoryEvent}
use swf4go.Correlator.{ActivityCorrelator, track}
use swf4go.Correlator.Laws.{track-track}
use swf4go.Fsm.Outcome.{
  Outcome, IntermediateOutcome, outcome_data, outcome_decisions, merged_state, merge_outcomes,
}
use swf4go.Fsm.Context.{Decider, FsmContext, FsmState, decide}
use swf4go.Fsm.Machine.{Fsm}
use swf4go.Fsm.Capture.{capture_system_error}
use swf4go.Fsm.Tick.{
  going, stopped, Loop, recover, stop_with, state_named, panic_safe_decide, state_decided, in_state,
  event_step, each_event,
}
use swf4go.Fsm.Tick.Stages.{going-injective, continue_with-eq-going}

module _ {ℓ} {V : Type ℓ} where
  -- the outcome after a decider's
  abbrev pub merged : IntermediateOutcome V → Outcome V → IntermediateOutcome V
  merged final o = record final {
    decisions = final.decisions ++ outcome_decisions o;
    data_value = outcome_data o;
    state = merged_state o final.state;
  }

  -- what a decider is given
  abbrev pub asked : Loop V → FsmContext V
  asked l = record l.1 { state = l.0.state; state_data = l.0.data_value }

  -- One event, decided in the state that the outcomes before it have led to.
  pub record Decided (f : Fsm V) (e : HistoryEvent) (l m : Loop V) : Type ℓ where
    pub state : FsmState V
    pub outcome : Outcome V
    pub pending : ActivityCorrelator
    pub has_state : state_named f.states l.0.state ≡ some state
    pub decided : state.decider (asked l) e l.0.data_value ≡ returns (some outcome)
    pub tracked : track l.1.pending_activities e ≡ returns pending
    pub result : m ≡ (merged l.0 outcome, record (asked l) { pending_activities = pending })

  -- Events decided one after the other, oldest first.
  pub data Runs (f : Fsm V) : List HistoryEvent → Loop V → Loop V → Type ℓ where
    halt : {l : Loop V} → Runs f [] l l
    step :
        {e : HistoryEvent} {es : List HistoryEvent} {l m n : Loop V}
        → Decided f e l m
        → Runs f es m n
        → Runs f (e ∷ es) l n

pub recover-eq-ok {ℓ} :
    {A : Type ℓ} (b : Bool) (m : Exec A) {a : A} → recover b m ≡ returns (ok a) → m ≡ returns a
unfolding recover
recover-eq-ok b (returns a) h = cc
recover-eq-ok true (panics p) h = cc
recover-eq-ok false (panics p) h = cc

pub stop_with-ne-going {ℓ} :
    {A : Type ℓ} (b : Bool) (e : GoError) (ds : List Decision) (m : Exec (List Decision)) {a : A}
    → stop_with b e ds m ≡ returns (going a)
    → ⊥
unfolding stop_with
stop_with-ne-going true e ds m h = cc
stop_with-ne-going false e ds (returns more) h = cc
stop_with-ne-going false e ds (panics p) h = cc

pub stopped-ne-going {ℓ} :
    {A : Type ℓ} (ds : List Decision) (m : Exec (List Decision)) {a : A}
    → (m >>= λ more. returns (stopped (ds ++ more))) ≡ returns (going a)
    → ⊥
stopped-ne-going ds (returns more) h = cc
stopped-ne-going ds (panics p) h = cc

module _ {ℓ} {V : Type ℓ} where
  pub decide-eq-returns :
      (context : FsmContext V) (e : HistoryEvent) (v : Option V) (decider : Decider V)
      (o : Option (Outcome V)) (c : FsmContext V)
      → decide context e v decider ≡ returns (o, c)
      → (pending : ActivityCorrelator) × (decider context e v ≡ returns o)
        × (track context.pending_activities e ≡ returns pending)
        × (c ≡ record context { pending_activities = pending })
  unfolding decide
  decide-eq-returns context e v decider o c h =
      let (o', d, h₁) = bind-eq-returns (decider context e v) _ h in
      let (pending, t, h₂) = bind-eq-returns (track context.pending_activities e) _ h₁ in
      let same = returns-injective h₂ in
      (
        pending,
        d ∙ ap returns (ap (λ (x : Option (Outcome V) × FsmContext V). x.0) same),
        t,
        sym (ap (λ (x : Option (Outcome V) × FsmContext V). x.1) same),
      )

  pub merge_outcomes-eq-returns :
      (final m : IntermediateOutcome V) (an_outcome : Option (Outcome V))
      → merge_outcomes final an_outcome ≡ returns m
      → (o : Outcome V) × (an_outcome ≡ some o) × (m ≡ merged final o)
  unfolding merge_outcomes
  merge_outcomes-eq-returns final m none h = cc
  merge_outcomes-eq-returns final m (some o) h = (o, refl, sym (returns-injective h))

  -- the second `Track` changes nothing
  tracked_again :
      (context c : FsmContext V) (e : HistoryEvent) (pending again : ActivityCorrelator)
      → track context.pending_activities e ≡ returns pending
      → c ≡ record context { pending_activities = pending }
      → track c.pending_activities e ≡ returns again
      → record c { pending_activities = again } ≡ record context { pending_activities = pending }
  tracked_again context c e pending again t ec t₂ =
      let same : again ≡ pending = returns-injective (
        sym t₂
        ∙ ap (λ (x : FsmContext V). track x.pending_activities e) ec
        ∙ track-track context.pending_activities pending e t) in
      rw same (ap (λ (x : FsmContext V). record x { pending_activities = pending }) ec)

module _ {ℓ} {V : Type ℓ} (f : Fsm V) (execution : WorkflowExecution) where
  state_decided-Decided :
      (e : HistoryEvent) (older : List HistoryEvent) (l m : Loop V) (s : FsmState V)
      (r : Result (Option (Outcome V) × FsmContext V))
      → state_named f.states l.0.state ≡ some s
      → panic_safe_decide f execution s (asked l) e l.0.data_value ≡ returns r
      → state_decided f execution e older l.0 r ≡ returns (going m)
      → Decided f e l m
  unfolding state_decided
  state_decided-Decided e older l m s (err error) has p h =
      absurd (stop_with-ne-going f.allow_panics error _ _ h)
  state_decided-Decided e older l m s (ok (an_outcome, context)) has p h =
      let (pending, d, t, c) =
        decide-eq-returns (asked l) e l.0.data_value s.decider an_outcome context
          (recover-eq-ok f.allow_panics _ (unfold panic_safe_decide in p)) in
      let (again, t₂, h₁) = bind-eq-returns (track context.pending_activities e) _ h in
      let (m', q, h₂) = bind-eq-returns (merge_outcomes l.0 an_outcome) _ h₁ in
      let (o, has_outcome, mo) = merge_outcomes-eq-returns l.0 m' an_outcome q in
      record {
        state = s;
        outcome = o;
        pending = pending;
        has_state = has;
        decided = d ∙ ap returns has_outcome;
        tracked = t;
        result =
            sym (going-injective h₂)
            ∙ (λ i. (mo i, tracked_again (asked l) context e pending again t c t₂ i));
      }

  in_state-Decided :
      (e : HistoryEvent) (older : List HistoryEvent) (l m : Loop V) (o : Option (FsmState V))
      → state_named f.states l.0.state ≡ o
      → in_state f execution o e older l ≡ returns (going m)
      → Decided f e l m
  unfolding in_state
  in_state-Decided e older l m (some s) has h =
      let (r, p, q) =
        bind-eq-returns (panic_safe_decide f execution s (asked l) e l.0.data_value) _ h in
      state_decided-Decided e older l m s r has p q
  in_state-Decided e older l m none has h =
      absurd (stopped-ne-going l.0.decisions (capture_system_error f execution _ (e ∷ older) _) h)

  -- A step that goes on has decided its event.
  event_step-Decided :
      (e : HistoryEvent) (older : List HistoryEvent) (l m : Loop V)
      → event_step f execution e older l ≡ returns (going m)
      → Decided f e l m
  unfolding event_step
  event_step-Decided e older l m h = in_state-Decided e older l m _ refl h

  Decided-event_step :
      (e : HistoryEvent) (older : List HistoryEvent) (l m : Loop V)
      → Decided f e l m
      → event_step f execution e older l ≡ returns (going m)
  unfolding event_step panic_safe_decide decide recover state_decided merge_outcomes
  Decided-event_step e older l m d =
      rw (d.has_state, d.decided, d.tracked)
        (rw (track-track l.1.pending_activities d.pending e d.tracked)
          (ap (λ (x : Loop V). returns (going x)) (sym d.result)))

  -- The loop goes through to the end exactly when every event in turn is decided.
  pub each_event-Runs :
      (es older : List HistoryEvent) (l m : Loop V)
      → each_event (event_step f execution) es older l ≡ returns (going m)
      → Runs f es l m
  unfolding each_event
  each_event-Runs [] older l m h = subst (Runs f [] l) (going-injective h) halt
  each_event-Runs (e ∷ es) older l m h =
      let (p, first, rest) = bind-eq-returns (event_step f execution e older l) _ h in
      let (c, here, later) =
        continue_with-eq-going p (λ c. each_event (event_step f execution) es (e ∷ older) c) rest in
      step (event_step-Decided e older l c (rw here at first))
        (each_event-Runs es (e ∷ older) c m later)

  pub Runs-each_event :
      {es : List HistoryEvent} (older : List HistoryEvent) {l m : Loop V}
      → Runs f es l m
      → each_event (event_step f execution) es older l ≡ returns (going m)
  unfolding each_event
  Runs-each_event older halt = refl
  Runs-each_event older (step {e = e} {es = es} {l = l} {m = c} d r) =
      rw (Decided-event_step e older l c d) (Runs-each_event (e ∷ older) r)

module _ {ℓ} {V : Type ℓ} {f : Fsm V} where
  -- A run leaves the version alone.
  pub Runs-state_version :
      {es : List HistoryEvent} {l m : Loop V}
      → Runs f es l m
      → m.0.state_version ≡ l.0.state_version
  Runs-state_version halt = refl
  Runs-state_version (step d r) =
      Runs-state_version r ∙ ap (λ (x : Loop V). x.0.state_version) d.result
