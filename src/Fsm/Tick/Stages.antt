-- ===== src/Fsm/Tick/Stages.antt =====
-- The parts of `Tick`, taken apart from its result: invariants of its loops, and the way that leads to
-- a state that is not nil.
use swf4go.Prelude.{◌≡◌, refl, ap, ◌∙◌, ◌⊎◌, inl, inr, Option, none, some, List, [], ◌∷◌, reverse}
use swf4go.Go.{Result, ok, err, Exec, returns, panics, ◌>>=◌, bind-eq-returns}
use swf4go.Protocol.Decision.{Decision}
use swf4go.Protocol.HistoryEvent.{HistoryEvent}
use swf4go.Protocol.Workers.{PollForDecisionTaskResponse}
use swf4go.Fsm.Outcome.{zero_outcome}
use swf4go.Fsm.Serialization.{SerializedState}
use swf4go.Fsm.Context.{new_fsm_context}
use swf4go.Fsm.Machine.{Fsm, fsm_serializer}
use swf4go.Fsm.History.{find_last_events, find_serialized_state}
use swf4go.Fsm.Tick.{
  Progress, going, stopped, Loop, continue_with, each_event, event_step, process_errors,
  recover_state, finish, or_stop, tick_from, tick_found, tick,
}

pub going-injective {ℓ} : {A : Type ℓ} {a b : A} → returns (going a) ≡ returns (going b) → a ≡ b
going-injective h = cc

pub continue_with-eq-going {ℓ} :
    {A : Type ℓ} (p : Progress A) (k : A → Exec (Progress A)) {b : A}
    → continue_with p k ≡ returns (going b)
    → (a : A) × (p ≡ going a) × (k a ≡ returns (going b))
continue_with-eq-going (going a) k h = (a, refl, h)
continue_with-eq-going (stopped ds) k h = cc

continue_with-eq-stopped {ℓ} :
    {A : Type ℓ} (p : Progress A) (k : A → Exec (Progress A)) {ds : List Decision}
    → continue_with p k ≡ returns (stopped ds)
    → (p ≡ stopped ds) ⊎ ((a : A) × (p ≡ going a) × (k a ≡ returns (stopped ds)))
continue_with-eq-stopped (going a) k h = inr (a, refl, h)
continue_with-eq-stopped (stopped ds) k h = inl (cc)

module _ {ℓ κ} {A : Type ℓ} (step : HistoryEvent → List HistoryEvent → A → Exec (Progress A)) where
  -- What each step keeps, the loop keeps.
  pub each_event-keeps :
      (P : A → Type κ)
      → ((e : HistoryEvent) (older : List HistoryEvent) (a b : A)
          → step e older a ≡ returns (going b)
          → P a
          → P b)
      → (es older : List HistoryEvent) (a b : A) → each_event step es older a ≡ returns (going b)
      → P a
      → P b
  unfolding each_event
  each_event-keeps P keep [] older a b h p = rw (going-injective h) at p
  each_event-keeps P keep (e ∷ es) older a b h p =
      let (q, first, rest) =
        bind-eq-returns (step e older a)
          (λ q. continue_with q (λ a'. each_event step es (e ∷ older) a')) h in
      let (c, here, later) =
        continue_with-eq-going q (λ a'. each_event step es (e ∷ older) a') rest in
      each_event-keeps P keep es (e ∷ older) c b later (keep e older a c (rw here at first) p)

  -- Where every early return of a step has `Q`, that of the loop has it.
  pub each_event_stops :
      (Q : List Decision → Type κ)
      → ((e : HistoryEvent) (older : List HistoryEvent) (a : A) (ds : List Decision)
          → step e older a ≡ returns (stopped ds)
          → Q ds)
      → (es older : List HistoryEvent) (a : A) (ds : List Decision)
      → each_event step es older a ≡ returns (stopped ds)
      → Q ds
  unfolding each_event
  each_event_stops Q stop [] older a ds h = cc
  each_event_stops Q stop (e ∷ es) older a ds h =
      let (q, first, rest) =
        bind-eq-returns (step e older a)
          (λ q. continue_with q (λ a'. each_event step es (e ∷ older) a')) h in
      elim (continue_with-eq-stopped q (λ a'. each_event step es (e ∷ older) a') rest) [
        | inl here ↦ stop e older a ds (rw here at first)
        | inr (c, _, later) ↦ each_event_stops Q stop es (e ∷ older) c ds later
      ]

module _ {ℓ} {V : Type ℓ} (f : Fsm V) (task : PollForDecisionTaskResponse) where
  -- A state that is not nil comes from the last part.
  or_stop-eq-some :
      (p : Progress (Loop V)) (k : Loop V → Exec (List Decision × Option SerializedState))
      {ds : List Decision} {s : SerializedState}
      → or_stop f task p k ≡ returns (ds, some s)
      → (l : Loop V) × (p ≡ going l) × (k l ≡ returns (ds, some s))
  unfolding or_stop
  or_stop-eq-some (going l) k h = (l, refl, h)
  or_stop-eq-some (stopped ds') k h = cc

  stage-eq-some :
      (m : Exec (Progress (Loop V))) (k : Loop V → Exec (List Decision × Option SerializedState))
      {ds : List Decision} {s : SerializedState}
      → (m >>= λ p. or_stop f task p k) ≡ returns (ds, some s)
      → (l : Loop V) × (m ≡ returns (going l)) × (k l ≡ returns (ds, some s))
  stage-eq-some (returns p) k h =
      let (l, here, later) = or_stop-eq-some p k h in (l, ap returns here, later)
  stage-eq-some (panics x) k h = cc

  -- A part that goes on hands over to the next.
  stage_goes_on :
      (m : Exec (Progress (Loop V))) (k : Loop V → Exec (List Decision × Option SerializedState))
      (l : Loop V)
      → m ≡ returns (going l)
      → (m >>= λ p. or_stop f task p k) ≡ k l
  unfolding or_stop
  stage_goes_on m k l h = rw h

  abbrev pub start : SerializedState → Loop V
  start saved = (
    zero_outcome,
    new_fsm_context (fsm_serializer f) task.workflow_type task.workflow_execution
        saved.pending_activities "" none 0,
  )

  -- The path through Tick that ends in a state.
  pub record Passed (last_events error_events : List HistoryEvent) (saved : SerializedState)
      (ds : List Decision) (new : SerializedState) : Type ℓ where
    pub handled : Loop V
    pub recovered : Loop V
    pub processed : Loop V
    pub errors : process_errors f task error_events (start saved) ≡ returns (going handled)
    pub recovery : recover_state f task saved handled ≡ returns (going recovered)
    pub events :
        each_event (event_step f task.workflow_execution) (reverse last_events) [] recovered
        ≡ returns (going processed)
    pub result : finish f task processed ≡ returns (ds, some new)

  pub tick_from-Passed :
      (last_events error_events : List HistoryEvent) (saved new : SerializedState)
      (ds : List Decision)
      → tick_from f task last_events error_events saved ≡ returns (ds, some new)
      → Passed last_events error_events saved ds new
  unfolding tick_from
  tick_from-Passed last_events error_events saved new ds h =
      let (a, errors, h₁) = stage-eq-some (process_errors f task error_events (start saved)) _ h in
      let (b, recovery, h₂) = stage-eq-some (recover_state f task saved a) _ h₁ in
      let (c, events, h₃) =
        stage-eq-some (each_event (event_step f task.workflow_execution) (reverse last_events) [] b)
          _ h₂ in
      record {
        handled = a;
        recovered = b;
        processed = c;
        errors = errors;
        recovery = recovery;
        events = events;
        result = h₃;
      }

  after_recovery : List HistoryEvent → Loop V → Exec (List Decision × Option SerializedState)
  after_recovery last_events l =
      each_event (event_step f task.workflow_execution) (reverse last_events) [] l >>= λ p.
      or_stop f task p (finish f task)

  after_errors :
      List HistoryEvent → SerializedState → Loop V → Exec (List Decision × Option SerializedState)
  after_errors last_events saved l =
      recover_state f task saved l >>= λ p. or_stop f task p (after_recovery last_events)

  -- The parts put together again.
  pub tick_from_stages :
      (last_events error_events : List HistoryEvent) (saved : SerializedState) (a b c : Loop V)
      → process_errors f task error_events (start saved) ≡ returns (going a)
      → recover_state f task saved a ≡ returns (going b)
      → each_event (event_step f task.workflow_execution) (reverse last_events) [] b
        ≡ returns (going c)
      → tick_from f task last_events error_events saved ≡ finish f task c
  unfolding tick_from after_errors after_recovery
  tick_from_stages last_events error_events saved a b c p q r =
      stage_goes_on (process_errors f task error_events (start saved))
        (after_errors last_events saved) a p
      ∙ stage_goes_on (recover_state f task saved a) (after_recovery last_events) b q
      ∙ stage_goes_on (each_event (event_step f task.workflow_execution) (reverse last_events) [] b)
          (finish f task) c r

  pub not_from_give_up :
      (m : Exec (List Decision)) {ds : List Decision} {s : SerializedState}
      → ◌≡◌ {A = Exec (List Decision × Option SerializedState)}
          (m >>= λ ds'. returns (ds', none))
          (returns (ds, some s))
      → ⊥
  not_from_give_up (returns ds') h = cc
  not_from_give_up (panics x) h = cc

  pub record Found (ds : List Decision) (new : SerializedState) : Type ℓ where
    pub last_events : List HistoryEvent
    pub error_events : List HistoryEvent
    pub saved : SerializedState
    pub scanned :
        find_last_events task.previous_started_event_id task.events
        ≡ returns (last_events, error_events)
    pub found : find_serialized_state f task.events ≡ returns (ok saved)
    pub passed : Passed last_events error_events saved ds new

  tick-Found_of :
      (last_events error_events : List HistoryEvent) (r : Result SerializedState)
      (ds : List Decision) (new : SerializedState)
      → find_last_events task.previous_started_event_id task.events
        ≡ returns (last_events, error_events)
      → find_serialized_state f task.events ≡ returns r
      → tick_found f task last_events error_events r ≡ returns (ds, some new)
      → Found ds new
  unfolding tick_found
  tick-Found_of last_events error_events (ok saved) ds new p q h = record {
    last_events = last_events;
    error_events = error_events;
    saved = saved;
    scanned = p;
    found = q;
    passed = tick_from-Passed last_events error_events saved new ds h;
  }
  tick-Found_of last_events error_events (err e) ds new p q h = absurd (not_from_give_up _ h)

  pub tick-Found :
      (ds : List Decision) (new : SerializedState)
      → tick f task ≡ returns (ds, some new)
      → Found ds new
  unfolding tick
  tick-Found ds new h =
      let ((last_events, error_events), p, h₁) =
        bind-eq-returns (find_last_events task.previous_started_event_id task.events) _ h in
      let (r, q, h₂) = bind-eq-returns (find_serialized_state f task.events) _ h₁ in
      tick-Found_of last_events error_events r ds new p q h₂
