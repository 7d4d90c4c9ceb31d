-- ===== src/Protocol/ActivityEvents.antt =====
-- The attributes of the history events on activities, timers, markers and decision tasks (protocol.go).
use swf4go.Prelude.{String, ℕ}
use swf4go.Protocol.Common.{ActivityType, TaskList}

pub record ActivityTaskCancelRequestedEventAttributes : Type 0 where
  pub activity_id : String
  pub decision_task_completed_event_id : ℕ

pub record ActivityTaskCanceledEventAttributes : Type 0 where
  pub details : String
  pub latest_cancel_requested_event_id : ℕ
  pub scheduled_event_id : ℕ
  pub started_event_id : ℕ

pub record ActivityTaskCompletedEventAttributes : Type 0 where
  pub result : String
  pub scheduled_event_id : ℕ
  pub started_event_id : ℕ

pub record ActivityTaskFailedEventAttributes : Type 0 where
  pub details : String
  pub reason : String
  pub scheduled_event_id : ℕ
  pub started_event_id : ℕ

pub record ActivityTaskScheduledEventAttributes : Type 0 where
  pub activity_id : String
  pub activity_type : ActivityType
  pub control : String
  pub decision_task_completed_event_id : ℕ
  pub heartbeat_timeout : String
  pub input : String
  pub schedule_to_close_timeout : String
  pub schedule_to_start_timeout : String
  pub start_to_close_timeout : String
  pub task_list : TaskList

pub record ActivityTaskStartedEventAttributes : Type 0 where
  pub identity : String
  pub scheduled_event_id : ℕ

pub record ActivityTaskTimedOutEventAttributes : Type 0 where
  pub details : String
  pub scheduled_event_id : ℕ
  pub started_event_id : ℕ
  pub timeout_type : String

pub record CancelTimerFailedEventAttributes : Type 0 where
  pub cause : String
  pub decision_task_completed_event_id : ℕ
  pub timer_id : String

pub record DecisionTaskCompletedEventAttributes : Type 0 where
  pub execution_context : String
  pub scheduled_event_id : ℕ
  pub started_event_id : ℕ

pub record DecisionTaskScheduledEventAttributes : Type 0 where
  pub start_to_close_timeout : String
  pub task_list : TaskList

pub record DecisionTaskStartedEventAttributes : Type 0 where
  pub identity : String
  pub scheduled_event_id : ℕ

pub record DecisionTaskTimedOutEventAttributes : Type 0 where
  pub scheduled_event_id : ℕ
  pub started_event_id : ℕ
  pub timeout_type : String

pub record MarkerRecordedEventAttributes : Type 0 where
  pub decision_task_completed_event_id : ℕ
  pub details : String
  pub marker_name : String

pub record RecordMarkerFailedEventAttributes : Type 0 where
  pub cause : String
  pub decision_task_completed_event_id : ℕ
  pub marker_name : String

pub record RequestCancelActivityTaskFailedEventAttributes : Type 0 where
  pub activity_id : String
  pub cause : String
  pub decision_task_completed_event_id : ℕ

pub record ScheduleActivityTaskFailedEventAttributes : Type 0 where
  pub activity_id : String
  pub activity_type : ActivityType
  pub cause : String
  pub decision_task_completed_event_id : ℕ

pub record StartTimerFailedEventAttributes : Type 0 where
  pub cause : String
  pub decision_task_completed_event_id : ℕ
  pub timer_id : String

pub record TimerCanceledEventAttributes : Type 0 where
  pub decision_task_completed_event_id : ℕ
  pub started_event_id : ℕ
  pub timer_id : String

pub record TimerFiredEventAttributes : Type 0 where
  pub started_event_id : ℕ
  pub timer_id : String

pub record TimerStartedEventAttributes : Type 0 where
  pub control : String
  pub decision_task_completed_event_id : ℕ
  pub start_to_fire_timeout : String
  pub timer_id : String
