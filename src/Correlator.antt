-- ===== src/Correlator.antt =====
-- fsm_models.go, `ActivityCorrelator`: which activities are in flight, by the decimal text of the
-- identifier of the event that scheduled each. The map may be nil, and each method makes it first.
pub mod Laws
pub mod Lifecycle
pub mod Pending
pub mod Bounded
mod Tests
use swf4go.Prelude.{ℕ, String, Option, none, some, []}
use swf4go.Prelude.Decimal.{itoa}
use swf4go.Prelude.Map.{Map, lookup, insert, delete}
use swf4go.Go.{Exec, returns, ◌>>=◌, deref}
use swf4go.Protocol.Common.{ActivityType}
use swf4go.Protocol.EventType.{
  EventType, activity_task_scheduled, activity_task_completed, activity_task_failed,
  activity_task_timed_out, activity_task_canceled,
}
use swf4go.Protocol.HistoryEvent.{HistoryEvent}

pub record ActivityInfo : Type 0 where
  pub activity_id : String
  pub activity_type : ActivityType

pub record ActivityCorrelator : Type 0 where
  pub activities : Option (Map ActivityInfo)

-- the entries; a nil map reads as an empty one
abbrev pub entries : Option (Map ActivityInfo) → Map ActivityInfo
entries none = []
entries (some m) = m

-- if a.Activities == nil { a.Activities = make(…) }
unfoldable pub made : ActivityCorrelator → ActivityCorrelator
made a = record { activities = some (entries a.activities) }

-- the identifier of the scheduling event that a closing event names; `none` for any other event
pub closed_id : EventType → HistoryEvent → Exec (Option ℕ)
closed_id activity_task_completed h = do
  attributes ← deref h.activity_task_completed_event_attributes
  returns (some attributes.scheduled_event_id)
closed_id activity_task_failed h = do
  attributes ← deref h.activity_task_failed_event_attributes
  returns (some attributes.scheduled_event_id)
closed_id activity_task_timed_out h = do
  attributes ← deref h.activity_task_timed_out_event_attributes
  returns (some attributes.scheduled_event_id)
closed_id activity_task_canceled h = do
  attributes ← deref h.activity_task_canceled_event_attributes
  returns (some attributes.scheduled_event_id)
closed_id _ h = returns none

pub delete_id : Option ℕ → Map ActivityInfo → Map ActivityInfo
unfolding itoa delete
delete_id none m = m
delete_id (some id) m = delete (itoa id) m

unfoldable pub remove_correlation : ActivityCorrelator → HistoryEvent → Exec ActivityCorrelator
unfolding closed_id delete_id
remove_correlation a h = do
  closed ← closed_id h.event_type h
  returns (record { activities = some (delete_id closed (entries a.activities)) })

-- the entry that an event adds
pub scheduled_info : EventType → HistoryEvent → Exec (Option ActivityInfo)
scheduled_info activity_task_scheduled h = do
  attributes ← deref h.activity_task_scheduled_event_attributes
  returns (
      some
        (record { activity_id = attributes.activity_id; activity_type = attributes.activity_type }))
scheduled_info _ h = returns none

pub insert_info : ℕ → Option ActivityInfo → Map ActivityInfo → Map ActivityInfo
unfolding itoa insert
insert_info id none m = m
insert_info id (some info) m = insert (itoa id) info m

unfoldable pub correlate : ActivityCorrelator → HistoryEvent → Exec ActivityCorrelator
unfolding scheduled_info insert_info
correlate a h = do
  added ← scheduled_info h.event_type h
  returns (record { activities = some (insert_info h.event_id added (entries a.activities)) })

unfoldable pub track : ActivityCorrelator → HistoryEvent → Exec ActivityCorrelator
unfolding remove_correlation correlate
track a h = do a' ← remove_correlation a h; correlate a' h

pub lookup_id : Option ℕ → Map ActivityInfo → Option ActivityInfo
unfolding itoa lookup
lookup_id none m = none
lookup_id (some id) m = lookup (itoa id) m

-- Its result, beside the correlator that it leaves.
unfoldable pub activity_type :
    ActivityCorrelator → HistoryEvent → Exec (Option ActivityInfo × ActivityCorrelator)
unfolding closed_id lookup_id made
activity_type a h = do
  closed ← closed_id h.event_type h
  returns (lookup_id closed (entries a.activities), made a)
