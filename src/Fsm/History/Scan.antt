-- ===== src/Fsm/History/Scan.antt =====
-- `findLastEvents` (fsm.go, lines 504 to 533) against a reading of the events one by one.
use swf4go.Prelude.{
  ℕ, String, ◌≡◌, refl, sym, ap, ◌∙◌, Bool, true, false, not, ◌&&◌, ◌||◌, none, some, List, [], ◌∷◌,
  ◌++◌, ◌==◌, eqb, if◌then◌else◌, subst, All, keep, until, append_assoc, append-nil, Bool-cases,
  inl, inr,
}
use swf4go.Go.{Exec, returns}
use swf4go.Protocol.ActivityEvents.{MarkerRecordedEventAttributes}
use swf4go.Protocol.WorkflowEvents.{
  WorkflowExecutionSignaledEventAttributes, WorkflowExecutionStartedEventAttributes,
}
use swf4go.Protocol.EventType.{
  EventType, decision_task_completed, decision_task_scheduled, decision_task_started,
  marker_recorded, workflow_execution_signaled, workflow_execution_started,
}
use swf4go.Protocol.HistoryEvent.{HistoryEvent}
use swf4go.Fsm.Machine.{state_marker, error_signal, system_error_signal}
use swf4go.Fsm.History.{
  Place, skipped, last_event, error_event, place, add_last, add_error, scan, find_last_events,
}

marker_name : HistoryEvent → String
marker_name h = elim h.marker_recorded_event_attributes [ none ↦ "" | some a ↦ a.marker_name ]

signal_name : HistoryEvent → String
signal_name h = elim h.workflow_execution_signaled_event_attributes [
  | none ↦ ""
  | some a ↦ a.signal_name
]

-- The scheduling, start and completion of decision tasks, and the FSM's own markers.
own_event : EventType → HistoryEvent → Bool
own_event decision_task_completed h = true
own_event decision_task_scheduled h = true
own_event decision_task_started h = true
own_event marker_recorded h = marker_name h == state_marker
own_event _ h = false

-- The signals that the FSM sends to its own execution.
error_of : EventType → HistoryEvent → Bool
error_of workflow_execution_signaled h =
    signal_name h == system_error_signal || signal_name h == error_signal
error_of _ h = false

pub is_own : HistoryEvent → Bool
unfolding own_event marker_name
is_own h = own_event h.event_type h

unfoldable pub is_error : HistoryEvent → Bool
unfolding error_of signal_name
is_error h = error_of h.event_type h

-- An event for the decider of the current state.
pub is_new : HistoryEvent → Bool
unfolding is_own is_error
is_new h = not (is_own h) && not (is_error h)

-- A marker, a signal or a start comes with its attributes, as the service sends it.
pub record HasAttributes (h : HistoryEvent) : Type 0 where
  pub marker :
      h.event_type ≡ marker_recorded
      → (a : MarkerRecordedEventAttributes) × (h.marker_recorded_event_attributes ≡ some a)
  pub signal :
      h.event_type ≡ workflow_execution_signaled
      → (a : WorkflowExecutionSignaledEventAttributes)
        × (h.workflow_execution_signaled_event_attributes ≡ some a)
  pub start :
      h.event_type ≡ workflow_execution_started
      → (a : WorkflowExecutionStartedEventAttributes)
        × (h.workflow_execution_started_event_attributes ≡ some a)

placed : Bool → Bool → Place
placed true error = skipped
placed false true = error_event
placed false false = last_event

placed_own : (own : Bool) → (if own then skipped else last_event) ≡ placed own false
unfolding placed
placed_own true = refl
placed_own false = refl

placed_error : (error : Bool) → (if error then error_event else last_event) ≡ placed false error
unfolding placed
placed_error true = refl
placed_error false = refl

place-placed :
    (t : EventType) (h : HistoryEvent)
    → h.event_type ≡ t
    → (t ≡ marker_recorded
        → (a : MarkerRecordedEventAttributes) × (h.marker_recorded_event_attributes ≡ some a))
    → (t ≡ workflow_execution_signaled
        → (a : WorkflowExecutionSignaledEventAttributes)
          × (h.workflow_execution_signaled_event_attributes ≡ some a))
    → place t h ≡ returns (placed (own_event t h) (error_of t h))
unfolding place own_event error_of placed marker_name signal_name
place-placed decision_task_completed h e m s = refl
place-placed decision_task_scheduled h e m s = refl
place-placed decision_task_started h e m s = refl
place-placed marker_recorded h e m s =
    let (a, p) = m refl in rw (e, p) (ap returns (placed_own (a.marker_name == state_marker)))
place-placed workflow_execution_signaled h e m s =
    let (a, p) = s refl in
    rw (e, p)
      (ap returns
        (placed_error (a.signal_name == system_error_signal || a.signal_name == error_signal)))
place-placed _ h e m s = refl

add_last-placed :
    (own error : Bool) (h : HistoryEvent) (before : List HistoryEvent) (rest : List HistoryEvent)
    → add_last (placed own error) h before ++ rest
      ≡ before ++ (elim (not own && not error) [ true ↦ h ∷ rest | false ↦ rest ])
unfolding add_last placed
add_last-placed true error h before rest = refl
add_last-placed false true h before rest = refl
add_last-placed false false h before rest = append_assoc before (h ∷ []) rest

add_error-placed :
    (own error : Bool) (h : HistoryEvent) (before : List HistoryEvent) (rest : List HistoryEvent)
    → add_error (placed own error) h before ++ rest
      ≡ before ++ (elim (not own && error) [ true ↦ h ∷ rest | false ↦ rest ])
unfolding add_error placed
add_error-placed true error h before rest = refl
add_error-placed false true h before rest = append_assoc before (h ∷ []) rest
add_error-placed false false h before rest = refl

and_false : (b : Bool) → (b && false) ≡ false
and_false true = refl
and_false false = refl

own-error :
    (t : EventType) (h : HistoryEvent) → (not (own_event t h) && error_of t h) ≡ error_of t h
unfolding own_event error_of
own-error decision_task_completed h = refl
own-error decision_task_scheduled h = refl
own-error decision_task_started h = refl
own-error marker_recorded h = and_false (not (own_event marker_recorded h))
own-error workflow_execution_signaled h = refl
own-error _ h = refl

-- The events that a task is about: those before the one that started the decision task before it.
abbrev pub since : ℕ → List HistoryEvent → List HistoryEvent
since prev_started events = until (λ h. eqb h.event_id prev_started) events

pub since-hit :
    (prev_started : ℕ) (h : HistoryEvent) (hs : List HistoryEvent)
    → eqb h.event_id prev_started ≡ true
    → since prev_started (h ∷ hs) ≡ []
since-hit prev_started h hs e =
    ap
      (λ (b : Bool). elim b as (λ _. List HistoryEvent) [
        | true ↦ []
        | false ↦ h ∷ since prev_started hs
      ])
      e

pub since-miss :
    (prev_started : ℕ) (h : HistoryEvent) (hs : List HistoryEvent)
    → eqb h.event_id prev_started ≡ false
    → since prev_started (h ∷ hs) ≡ h ∷ since prev_started hs
since-miss prev_started h hs e =
    ap
      (λ (b : Bool). elim b as (λ _. List HistoryEvent) [
        | true ↦ []
        | false ↦ h ∷ since prev_started hs
      ])
      e

-- what a scan returns for a slice, after what it has found
abbrev parted :
    List HistoryEvent
    → List HistoryEvent
    → List HistoryEvent
    → Exec (List HistoryEvent × List HistoryEvent)
parted last_events error_events events =
    returns (last_events ++ keep is_new events, error_events ++ keep is_error events)

parted_nil :
    (last_events error_events : List HistoryEvent)
    → returns (last_events, error_events) ≡ parted last_events error_events []
parted_nil last_events error_events =
    λ i. returns (sym (append-nil last_events) i, sym (append-nil error_events) i)

parted_cons :
    (h : HistoryEvent) (hs last_events error_events : List HistoryEvent)
    → let p = placed (own_event h.event_type h) (error_of h.event_type h) in
      parted (add_last p h last_events) (add_error p h error_events) hs
      ≡ parted last_events error_events (h ∷ hs)
unfolding is_new is_error is_own
parted_cons h hs last_events error_events =
    let own = own_event h.event_type h in
    let error = error_of h.event_type h in
    λ i. returns (
      add_last-placed own error h last_events (keep is_new hs) i,
      (add_error-placed own error h error_events (keep is_error hs)
            ∙ ap
                (λ (b : Bool). error_events ++ elim b as (λ _. List HistoryEvent) [
                  | true ↦ h ∷ keep is_error hs
                  | false ↦ keep is_error hs
                ])
                (own-error h.event_type h))
          i,
    )

scan-parted :
    (prev_started : ℕ) (events last_events error_events : List HistoryEvent)
    → All HasAttributes (since prev_started events)
    → scan prev_started last_events error_events events
      ≡ parted last_events error_events (since prev_started events)
unfolding scan
scan-parted prev_started [] last_events error_events w = parted_nil last_events error_events
scan-parted prev_started (h ∷ hs) last_events error_events w =
    elim (Bool-cases (eqb h.event_id prev_started)) [
      | inl hit ↦
          rw hit (parted_nil last_events error_events)
          ∙ ap (parted last_events error_events) (sym (since-hit prev_started h hs hit))
      | inr miss ↦
          let (here, later) = subst (All HasAttributes) (since-miss prev_started h hs miss) w in
          let p = placed (own_event h.event_type h) (error_of h.event_type h) in
          rw (miss, place-placed h.event_type h refl here.marker here.signal) refl
          ∙ scan-parted prev_started hs (add_last p h last_events) (add_error p h error_events)
              later
          ∙ parted_cons h (since prev_started hs) last_events error_events
          ∙ ap (parted last_events error_events) (sym (since-miss prev_started h hs miss))
    ]

-- Where the events since the last decision task come with their attributes, the two slices are the
-- new events and the error signals among them, each in its order: all but the state markers and the
-- scheduling, start and completion of decision tasks.
pub find_last_events-keep :
    (prev_started : ℕ) (events : List HistoryEvent)
    → All HasAttributes (since prev_started events)
    → find_last_events prev_started events
      ≡ returns (keep is_new (since prev_started events), keep is_error (since prev_started events))
unfolding find_last_events
find_last_events-keep prev_started events w = scan-parted prev_started events [] [] w
