-- ===== src/Fsm/Execution.antt =====
-- A whole execution: the decision tasks that the service delivers one after the other, each with the history so
-- far, and what the FSM's Tick (fsm.go, lines 270 to 370) makes of them together.
mod Tests
use swf4go.Prelude.{
  ℕ, String, append_assoc, suc, ◌+◌, ◌%◌, ◌^◌, Bool, true, false, ◌≡◌, refl, sym, ap, subst, ◌∙◌,
  some, List, [], ◌∷◌, ◌++◌, reverse, eqb, keep, keep-append, All, arith, append-nil, Bool-cases,
  inl, inr,
}
use mathlib.Core.List.{reverse-append}
use swf4go.Go.{ok, returns}
use swf4go.Protocol.Decision.{Decision}
use swf4go.Protocol.HistoryEvent.{HistoryEvent}
use swf4go.Protocol.Workers.{PollForDecisionTaskResponse}
use swf4go.Fsm.Serialization.{SerializedState, StateSerializer, state}
use swf4go.Fsm.Machine.{Fsm}
use swf4go.Fsm.History.{find_last_events, find_serialized_state}
use swf4go.Fsm.History.Finding.{IsQuiet}
use swf4go.Fsm.History.Scan.{
  is_new, is_error, since, since-hit, since-miss, HasAttributes, find_last_events-keep,
}
use swf4go.Fsm.Tick.{tick}
use swf4go.Fsm.Tick.Marker.{Recorded, find-tick}
use swf4go.Fsm.Tick.Refinement.{Ticked, tick-Ticked}
use swf4go.Fsm.Tick.Version.{state_version-tick}

-- The history as of the last decision task has the start of that task for its newest event.
abbrev pub StartedAt : ℕ → List HistoryEvent → Type 0
StartedAt prev [] = Unit {0}
StartedAt prev (h ∷ older) = eqb h.event_id prev ≡ true

-- A decision task with a history, of which `fresh` are the events since the last task, without error signals.
pub record Delivered (history fresh : List HistoryEvent) (task : PollForDecisionTaskResponse)
    : Type 0 where
  pub events : task.events ≡ fresh ++ history
  pub attributes : All HasAttributes fresh
  pub unseen :
      All (λ (h : HistoryEvent). eqb h.event_id task.previous_started_event_id ≡ false) fresh
  pub previous : StartedAt task.previous_started_event_id history
  pub no_errors : keep is_error fresh ≡ []

since-StartedAt :
    (prev : ℕ) (history : List HistoryEvent) → StartedAt prev history → since prev history ≡ []
since-StartedAt prev [] h = refl
since-StartedAt prev (e ∷ older) h = since-hit prev e older h

since-append :
    (prev : ℕ) (fresh history : List HistoryEvent)
    → All (λ (h : HistoryEvent). eqb h.event_id prev ≡ false) fresh
    → StartedAt prev history
    → since prev (fresh ++ history) ≡ fresh
since-append prev [] history unseen started = since-StartedAt prev history started
since-append prev (h ∷ fresh) history unseen started =
    since-miss prev h (fresh ++ history) unseen.0
    ∙ (ap (λ (x : List HistoryEvent). h ∷ x) (since-append prev fresh history unseen.1 started))

Delivered-find_last_events :
    (history fresh : List HistoryEvent) (task : PollForDecisionTaskResponse)
    → Delivered history fresh task
    → find_last_events task.previous_started_event_id task.events ≡ returns (keep is_new fresh, [])
Delivered-find_last_events history fresh task d =
    let recent : since task.previous_started_event_id task.events ≡ fresh =
      ap (since task.previous_started_event_id) d.events
      ∙ since-append task.previous_started_event_id fresh history d.unseen d.previous in
    find_last_events-keep task.previous_started_event_id task.events
      (subst (All HasAttributes) (sym recent) d.attributes)
    ∙ ap (λ (x : List HistoryEvent). returns (keep is_new x, keep is_error x)) recent
    ∙ ap (λ (x : List HistoryEvent). returns (keep is_new fresh, x)) d.no_errors

module _ {ℓ} {V : Type ℓ} (f : Fsm V) where
  -- Decision tasks one after the other, each of which Tick answers with a state: the history with the last of them,
  -- the decision that records its state, that state, and the number of the tasks.
  pub data Execution (saved₀ : SerializedState)
      : List HistoryEvent → Decision → SerializedState → ℕ → Type ℓ where
    first :
        {task : PollForDecisionTaskResponse} {d : Decision} {rest : List Decision}
        {new : SerializedState}
        → Delivered [] task.events task
        → find_serialized_state f task.events ≡ returns (ok saved₀)
        → tick f task ≡ returns (d ∷ rest, some new)
        → Execution saved₀ task.events d new 1
    next :
        {history : List HistoryEvent} {marker d : Decision} {saved new : SerializedState} {n : ℕ}
        {task : PollForDecisionTaskResponse} {rest : List Decision}
        (later before : List HistoryEvent) (h : HistoryEvent)
        → Execution saved₀ history marker saved n
        → Delivered history (later ++ h ∷ before) task
        → Recorded marker h
        → All IsQuiet later
        → tick f task ≡ returns (d ∷ rest, some new)
        → Execution saved₀ task.events d new (suc n)

  -- Runs of the deciders, each from the state that the one before it persisted, over all these events, oldest
  -- first.
  pub data Replays (saved₀ : SerializedState) : List HistoryEvent → SerializedState → Type ℓ where
    begun : Replays saved₀ [] saved₀
    then_run :
        {es : List HistoryEvent} {saved new : SerializedState} {ds : List Decision}
        (task : PollForDecisionTaskResponse) (fresh : List HistoryEvent)
        → Replays saved₀ es saved
        → Ticked f task fresh saved ds new
        → Replays saved₀ (es ++ reverse fresh) new

  module _ (s : StateSerializer V) (has_serializer : f.serializer ≡ some s)
      (reads_back : (x : SerializedState) (t : String)
        → s.serialize (state x) ≡ returns (ok t)
        → s.deserialize_state t ≡ returns (ok x))
      (saved₀ : SerializedState) where
    found_again :
        (history later before : List HistoryEvent) (h : HistoryEvent) (marker : Decision)
        (saved : SerializedState) (n : ℕ)
        → Execution saved₀ history marker saved n
        → Recorded marker h
        → All IsQuiet later
        → find_serialized_state f (later ++ h ∷ before) ≡ returns (ok saved)
    found_again history later before h marker saved n (first {task = task} {rest = rest} d found t)
          r q =
        find-tick f task s has_serializer reads_back marker rest saved h later before t r q
    found_again history later before h marker saved n
          (next {task = task} {rest = rest} _ _ _ x d r' q' t) r q =
        find-tick f task s has_serializer reads_back marker rest saved h later before t r q

    next_found :
        (history later before : List HistoryEvent) (h : HistoryEvent) (marker : Decision)
        (saved : SerializedState) (n : ℕ) (task : PollForDecisionTaskResponse)
        → Execution saved₀ history marker saved n
        → Delivered history (later ++ h ∷ before) task
        → Recorded marker h
        → All IsQuiet later
        → find_serialized_state f task.events ≡ returns (ok saved)
    next_found history later before h marker saved n task x delivered r q =
        ap (find_serialized_state f) (delivered.events ∙ append_assoc later (h ∷ before) history)
        ∙ found_again history later (before ++ history) h marker saved n x r q

    -- Over any number of decision tasks, whose Ticks return states, in a history without error signals, the
    -- persisted state is what runs of the deciders lead to, each from the state that the one before it
    -- persisted, over every event of the history that is not a state marker or the scheduling, start or
    -- completion of a decision task, exactly once, oldest first, where the serializer reads back the
    -- states that it writes.
    pub Execution-Replays :
        {history : List HistoryEvent} {d : Decision} {saved : SerializedState} {n : ℕ}
        → Execution saved₀ history d saved n
        → Replays saved₀ (reverse (keep is_new history)) saved
    Execution-Replays (first {task = task} {new = new} delivered found t) =
        then_run task (keep is_new task.events) begun (
          tick-Ticked f task (keep is_new task.events) saved₀
            (Delivered-find_last_events [] task.events task delivered) found _ new t)
    Execution-Replays
          (next {history = history} {marker = marker} {saved = saved} {new = new} {n = n}
            {task = task} later before h x delivered r q t) =
        let fresh = later ++ h ∷ before in
        subst (λ es. Replays saved₀ es new)
          (sym (reverse-append (keep is_new fresh) (keep is_new history))
            ∙ ap reverse
                (sym (keep-append is_new fresh history) ∙ ap (keep is_new) (sym delivered.events)))
          (then_run task (keep is_new fresh) (Execution-Replays x) (
            tick-Ticked f task (keep is_new fresh) saved
              (Delivered-find_last_events history fresh task delivered)
              (next_found history later before h marker saved n task x delivered r q) _ new t))

    -- After n decision tasks, whose Ticks return states, in a history without error signals, the version of
    -- the persisted state is n more, in 64 bits, than that of the state that the execution started with,
    -- where the serializer reads back the states that it writes.
    pub Execution-state_version :
        {history : List HistoryEvent} {d : Decision} {saved : SerializedState} {n : ℕ}
        → Execution saved₀ history d saved n
        → saved.replication_data.state_version
          ≡ (saved₀.replication_data.state_version + n) % 2 ^ 64
    Execution-state_version (first {task = task} {new = new} delivered found t) =
        state_version-tick f task (keep is_new task.events) saved₀ new _
          (Delivered-find_last_events [] task.events task delivered) found t
    Execution-state_version
          (next {history = history} {marker = marker} {saved = saved} {new = new} {n = n}
            {task = task} later before h x delivered r q t) =
        let fresh = later ++ h ∷ before in
        let e =
          state_version-tick f task (keep is_new fresh) saved new _
            (Delivered-find_last_events history fresh task delivered)
            (next_found history later before h marker saved n task x delivered r q) t in
        let e' = Execution-state_version x in omega (arith, e, e')
