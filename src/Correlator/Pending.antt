-- ===== src/Correlator/Pending.antt =====
-- The correlator against a reading of the history: an activity is in flight from the event that
-- scheduled it until the first event after it that ends it.
use swf4go.Prelude.{
  ℕ, ◌≡◌, refl, ap, ◌∙◌, Bool, false, Option, none, some, List, [], ◌∷◌, arith, eqb, if◌then◌else◌,
}
use swf4go.Prelude.Decimal.{itoa, itoa-eq}
use swf4go.Prelude.Map.{Map, lookup, lookup-insert, lookup-delete}
use swf4go.Go.{Exec, returns, ◌>>=◌, deref, bind-eq-returns}
use swf4go.Protocol.EventType.{
  EventType, activity_task_scheduled, activity_task_completed, activity_task_failed,
  activity_task_timed_out, activity_task_canceled,
}
use swf4go.Protocol.HistoryEvent.{HistoryEvent}
use swf4go.Correlator.{
  ActivityInfo, ActivityCorrelator, entries, closed_id, delete_id, scheduled_info, insert_info,
  track,
}
use swf4go.Correlator.Laws.{track-entries}

-- `Track` on each event in turn, oldest first.
unfoldable pub track_all : ActivityCorrelator → List HistoryEvent → Exec ActivityCorrelator
track_all a [] = returns a
track_all a (h ∷ hs) = do b ← track a h; track_all b hs

-- What attributes say, if they are there.
abbrev read {ℓ κ} : {A : Type ℓ} {B : Type κ} → (A → B) → Option A → Option B
read f none = none
read f (some a) = some (f a)

-- The scheduling event that the attributes of an event's own type name, for the four types of events
-- that end an activity.
pub ended : EventType → HistoryEvent → Option ℕ
ended activity_task_completed h =
    read (λ a. a.scheduled_event_id) h.activity_task_completed_event_attributes
ended activity_task_failed h =
    read (λ a. a.scheduled_event_id) h.activity_task_failed_event_attributes
ended activity_task_timed_out h =
    read (λ a. a.scheduled_event_id) h.activity_task_timed_out_event_attributes
ended activity_task_canceled h =
    read (λ a. a.scheduled_event_id) h.activity_task_canceled_event_attributes
ended _ h = none

abbrev names : ℕ → Option ℕ → Bool
names id (some n) = eqb n id
names id none = false

-- The event ends the activity that event `id` scheduled.
abbrev pub closes : ℕ → HistoryEvent → Bool
closes id h = names id (ended h.event_type h)

-- The activity that an event schedules.
pub begun : EventType → HistoryEvent → Option ActivityInfo
begun activity_task_scheduled h =
    read (λ a. record { activity_id = a.activity_id; activity_type = a.activity_type })
      h.activity_task_scheduled_event_attributes
begun _ h = none

abbrev adds : Option ActivityInfo → Option ActivityInfo → Option ActivityInfo
adds (some info) current = some info
adds none current = current

-- What is known of activity `id` after one more event.
abbrev pub observe : ℕ → Option ActivityInfo → HistoryEvent → Option ActivityInfo
observe id current h =
    let rest = if closes id h then none else current in
    if eqb h.event_id id then adds (begun h.event_type h) rest else rest

-- What is known of activity `id` after a history, oldest event first.
pub in_flight : ℕ → Option ActivityInfo → List HistoryEvent → Option ActivityInfo
in_flight id current [] = current
in_flight id current (h ∷ hs) = in_flight id (observe id current h) hs

abbrev at : ℕ → ActivityCorrelator → Option ActivityInfo
at id a = lookup (itoa id) (entries a.activities)

lookup-delete_id :
    (id : ℕ) (closed : Option ℕ) (m : Map ActivityInfo)
    → lookup (itoa id) (delete_id closed m) ≡ (if names id closed then none else lookup (itoa id) m)
unfolding delete_id
lookup-delete_id id none m = refl
lookup-delete_id id (some n) m = rw (← itoa-eq n id) (lookup-delete (itoa n) (itoa id) m)

lookup-insert_info :
    (id n : ℕ) (added : Option ActivityInfo) (m : Map ActivityInfo)
    → lookup (itoa id) (insert_info n added m)
      ≡ (if eqb n id then adds added (lookup (itoa id) m) else lookup (itoa id) m)
unfolding insert_info
lookup-insert_info id n none m = ground arith
lookup-insert_info id n (some info) m =
    rw (← itoa-eq n id) (lookup-insert (itoa n) (itoa id) info m)

ended_by {ℓ κ} :
    {A : Type ℓ} {B : Type κ} (o : Option A) (f : A → B) {r : Option B}
    → (deref o >>= λ a. returns (some (f a))) ≡ returns r
    → read f o ≡ r
ended_by none f e = cc
ended_by (some a) f e = cc

pub closed_id-ended :
    (t : EventType) (h : HistoryEvent) (closed : Option ℕ)
    → closed_id t h ≡ returns closed
    → ended t h ≡ closed
unfolding closed_id ended
closed_id-ended activity_task_completed h closed e =
    ended_by h.activity_task_completed_event_attributes (λ a. a.scheduled_event_id) e
closed_id-ended activity_task_failed h closed e =
    ended_by h.activity_task_failed_event_attributes (λ a. a.scheduled_event_id) e
closed_id-ended activity_task_timed_out h closed e =
    ended_by h.activity_task_timed_out_event_attributes (λ a. a.scheduled_event_id) e
closed_id-ended activity_task_canceled h closed e =
    ended_by h.activity_task_canceled_event_attributes (λ a. a.scheduled_event_id) e
closed_id-ended _ h closed e = cc

pub scheduled_info-begun :
    (t : EventType) (h : HistoryEvent) (added : Option ActivityInfo)
    → scheduled_info t h ≡ returns added
    → begun t h ≡ added
unfolding scheduled_info begun
scheduled_info-begun activity_task_scheduled h added e =
    ended_by h.activity_task_scheduled_event_attributes
      (λ a. record { activity_id = a.activity_id; activity_type = a.activity_type }) e
scheduled_info-begun _ h added e = cc

-- One `Track` that returns records what the event says of every activity.
pub track-observe :
    (id : ℕ) (a b : ActivityCorrelator) (h : HistoryEvent)
    → track a h ≡ returns b
    → at id b ≡ observe id (at id a) h
track-observe id a b h e =
    let (closed, added, p, q, r) = track-entries a b h e in
    ap (at id) r
    ∙ lookup-insert_info id h.event_id added (delete_id closed (entries a.activities))
    ∙ rw
        (
          closed_id-ended h.event_type h closed p,
          scheduled_info-begun h.event_type h added q,
          lookup-delete_id id closed (entries a.activities),
        )
        refl

-- After any history that is tracked without a panic, the correlator's entry for each scheduling
-- event is what a reading of the history gives: set by the ActivityTaskScheduled event that schedules the
-- activity, until an ActivityTaskCompleted, Failed, TimedOut or Canceled event names it.
pub track_all-in_flight :
    (id : ℕ) (a b : ActivityCorrelator) (hs : List HistoryEvent)
    → track_all a hs ≡ returns b
    → lookup (itoa id) (entries b.activities)
      ≡ in_flight id (lookup (itoa id) (entries a.activities)) hs
unfolding track_all in_flight
track_all-in_flight id a b [] e = cc
track_all-in_flight id a b (h ∷ hs) e =
    let (c, first, rest) = bind-eq-returns (track a h) (λ c. track_all c hs) e in
    track_all-in_flight id c b hs rest
    ∙ ap (λ (o : Option ActivityInfo). in_flight id o hs) (track-observe id a c h first)
