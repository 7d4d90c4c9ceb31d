-- ===== src/Protocol/EventTable.antt =====
-- The table `eventTypes` (protocol.go, lines 172 to 219), from each event type to the selector of its
-- attributes, with the key set that `EventTypes` returns and the keys that `DecisionTypes` returns.
use mathlib.Core.Option
use swf4go.Prelude.{Option, none, some, List, [], ◌∷◌}
use swf4go.Protocol.ActivityEvents.{
  ActivityTaskCancelRequestedEventAttributes, ActivityTaskCanceledEventAttributes,
  ActivityTaskCompletedEventAttributes, ActivityTaskFailedEventAttributes,
  ActivityTaskScheduledEventAttributes, ActivityTaskStartedEventAttributes,
  ActivityTaskTimedOutEventAttributes, CancelTimerFailedEventAttributes,
  DecisionTaskCompletedEventAttributes, DecisionTaskScheduledEventAttributes,
  DecisionTaskStartedEventAttributes, DecisionTaskTimedOutEventAttributes,
  MarkerRecordedEventAttributes, RecordMarkerFailedEventAttributes,
  RequestCancelActivityTaskFailedEventAttributes, ScheduleActivityTaskFailedEventAttributes,
  StartTimerFailedEventAttributes, TimerCanceledEventAttributes, TimerFiredEventAttributes,
  TimerStartedEventAttributes,
}
use swf4go.Protocol.WorkflowEvents.{
  CancelWorkflowExecutionFailedEventAttributes, ChildWorkflowExecutionCanceledEventAttributes,
  ChildWorkflowExecutionCompletedEventAttributes, ChildWorkflowExecutionStartedEventAttributes,
  ChildWorkflowExecutionTerminatedEventAttributes, ChildWorkflowExecutionTimedOutEventAttributes,
  CompleteWorkflowExecutionFailedEventAttributes,
  ContinueAsNewWorkflowExecutionFailedEventAttributes,
  ExternalWorkflowExecutionCancelRequestedEventAttributes,
  ExternalWorkflowExecutionSignaledEventAttributes, FailWorkflowExecutionFailedEventAttributes,
  RequestCancelExternalWorkflowExecutionFailedEventAttributes,
  RequestCancelExternalWorkflowExecutionInitiatedEventAttributes,
  SignalExternalWorkflowExecutionFailedEventAttributes,
  SignalExternalWorkflowExecutionInitiatedEventAttributes,
  StartChildWorkflowExecutionFailedEventAttributes,
  StartChildWorkflowExecutionInitiatedEventAttributes,
  WorkflowExecutionCancelRequestedEventAttributes, WorkflowExecutionCanceledEventAttributes,
  WorkflowExecutionCompletedEventAttributes, WorkflowExecutionContinuedAsNewEventAttributes,
  WorkflowExecutionFailedEventAttributes, WorkflowExecutionSignaledEventAttributes,
  WorkflowExecutionStartedEventAttributes, WorkflowExecutionTerminatedEventAttributes,
  WorkflowExecutionTimedOutEventAttributes,
}
use swf4go.Protocol.EventType.{EventType}
use swf4go.Protocol.HistoryEvent.{HistoryEvent}

-- What a selector returns, an `interface{}` in the program.
pub data EventAttributes : Type 0 where
  workflow_execution_started : WorkflowExecutionStartedEventAttributes → EventAttributes
  workflow_execution_cancel_requested :
      WorkflowExecutionCancelRequestedEventAttributes → EventAttributes
  workflow_execution_completed : WorkflowExecutionCompletedEventAttributes → EventAttributes
  complete_workflow_execution_failed :
      CompleteWorkflowExecutionFailedEventAttributes → EventAttributes
  workflow_execution_failed : WorkflowExecutionFailedEventAttributes → EventAttributes
  fail_workflow_execution_failed : FailWorkflowExecutionFailedEventAttributes → EventAttributes
  workflow_execution_timed_out : WorkflowExecutionTimedOutEventAttributes → EventAttributes
  workflow_execution_canceled : WorkflowExecutionCanceledEventAttributes → EventAttributes
  cancel_workflow_execution_failed : CancelWorkflowExecutionFailedEventAttributes → EventAttributes
  workflow_execution_continued_as_new :
      WorkflowExecutionContinuedAsNewEventAttributes → EventAttributes
  continue_as_new_workflow_execution_failed :
      ContinueAsNewWorkflowExecutionFailedEventAttributes → EventAttributes
  workflow_execution_terminated : WorkflowExecutionTerminatedEventAttributes → EventAttributes
  decision_task_scheduled : DecisionTaskScheduledEventAttributes → EventAttributes
  decision_task_started : DecisionTaskStartedEventAttributes → EventAttributes
  decision_task_completed : DecisionTaskCompletedEventAttributes → EventAttributes
  decision_task_timed_out : DecisionTaskTimedOutEventAttributes → EventAttributes
  activity_task_scheduled : ActivityTaskScheduledEventAttributes → EventAttributes
  schedule_activity_task_failed : ScheduleActivityTaskFailedEventAttributes → EventAttributes
  activity_task_started : ActivityTaskStartedEventAttributes → EventAttributes
  activity_task_completed : ActivityTaskCompletedEventAttributes → EventAttributes
  activity_task_failed : ActivityTaskFailedEventAttributes → EventAttributes
  activity_task_timed_out : ActivityTaskTimedOutEventAttributes → EventAttributes
  activity_task_canceled : ActivityTaskCanceledEventAttributes → EventAttributes
  activity_task_cancel_requested : ActivityTaskCancelRequestedEventAttributes → EventAttributes
  request_cancel_activity_task_failed :
      RequestCancelActivityTaskFailedEventAttributes → EventAttributes
  workflow_execution_signaled : WorkflowExecutionSignaledEventAttributes → EventAttributes
  marker_recorded : MarkerRecordedEventAttributes → EventAttributes
  record_marker_failed : RecordMarkerFailedEventAttributes → EventAttributes
  timer_started : TimerStartedEventAttributes → EventAttributes
  start_timer_failed : StartTimerFailedEventAttributes → EventAttributes
  timer_fired : TimerFiredEventAttributes → EventAttributes
  timer_canceled : TimerCanceledEventAttributes → EventAttributes
  cancel_timer_failed : CancelTimerFailedEventAttributes → EventAttributes
  start_child_workflow_execution_initiated :
      StartChildWorkflowExecutionInitiatedEventAttributes → EventAttributes
  start_child_workflow_execution_failed :
      StartChildWorkflowExecutionFailedEventAttributes → EventAttributes
  child_workflow_execution_started : ChildWorkflowExecutionStartedEventAttributes → EventAttributes
  child_workflow_execution_completed :
      ChildWorkflowExecutionCompletedEventAttributes → EventAttributes
  child_workflow_execution_failed : CancelWorkflowExecutionFailedEventAttributes → EventAttributes
  child_workflow_execution_timed_out :
      ChildWorkflowExecutionTimedOutEventAttributes → EventAttributes
  child_workflow_execution_canceled :
      ChildWorkflowExecutionCanceledEventAttributes → EventAttributes
  child_workflow_execution_terminated :
      ChildWorkflowExecutionTerminatedEventAttributes → EventAttributes
  signal_external_workflow_execution_initiated :
      SignalExternalWorkflowExecutionInitiatedEventAttributes → EventAttributes
  signal_external_workflow_execution_failed :
      SignalExternalWorkflowExecutionFailedEventAttributes → EventAttributes
  external_workflow_execution_signaled :
      ExternalWorkflowExecutionSignaledEventAttributes → EventAttributes
  request_cancel_external_workflow_execution_initiated :
      RequestCancelExternalWorkflowExecutionInitiatedEventAttributes → EventAttributes
  request_cancel_external_workflow_execution_failed :
      RequestCancelExternalWorkflowExecutionFailedEventAttributes → EventAttributes
  external_workflow_execution_cancel_requested :
      ExternalWorkflowExecutionCancelRequestedEventAttributes → EventAttributes

-- eventTypes[t](h); the outer `none` is a type that the table lacks, the inner one a nil pointer.
unfoldable pub event_types : EventType → Option (HistoryEvent → Option EventAttributes)
event_types EventType.workflow_execution_started = some (λ h.
    Option.map EventAttributes.workflow_execution_started
      h.workflow_execution_started_event_attributes)
event_types EventType.workflow_execution_cancel_requested = some (λ h.
    Option.map EventAttributes.workflow_execution_cancel_requested
      h.workflow_execution_cancel_requested_event_attributes)
event_types EventType.workflow_execution_completed = some (λ h.
    Option.map EventAttributes.workflow_execution_completed
      h.workflow_execution_completed_event_attributes)
event_types EventType.complete_workflow_execution_failed = some (λ h.
    Option.map EventAttributes.complete_workflow_execution_failed
      h.complete_workflow_execution_failed_event_attributes)
event_types EventType.workflow_execution_failed = some (λ h.
    Option.map EventAttributes.workflow_execution_failed
      h.workflow_execution_failed_event_attributes)
event_types EventType.fail_workflow_execution_failed = some (λ h.
    Option.map EventAttributes.fail_workflow_execution_failed
      h.fail_workflow_execution_failed_event_attributes)
event_types EventType.workflow_execution_timed_out = some (λ h.
    Option.map EventAttributes.workflow_execution_timed_out
      h.workflow_execution_timed_out_event_attributes)
event_types EventType.workflow_execution_canceled = some (λ h.
    Option.map EventAttributes.workflow_execution_canceled
      h.workflow_execution_canceled_event_attributes)
event_types EventType.cancel_workflow_execution_failed = some (λ h.
    Option.map EventAttributes.cancel_workflow_execution_failed
      h.cancel_workflow_execution_failed_event_attributes)
event_types EventType.workflow_execution_continued_as_new = some (λ h.
    Option.map EventAttributes.workflow_execution_continued_as_new
      h.workflow_execution_continued_as_new_event_attributes)
event_types EventType.continue_as_new_workflow_execution_failed = some (λ h.
    Option.map EventAttributes.continue_as_new_workflow_execution_failed
      h.continue_as_new_workflow_execution_failed_event_attributes)
event_types EventType.workflow_execution_terminated = some (λ h.
    Option.map EventAttributes.workflow_execution_terminated
      h.workflow_execution_terminated_event_attributes)
event_types EventType.decision_task_scheduled = some (λ h.
    Option.map EventAttributes.decision_task_scheduled h.decision_task_scheduled_event_attributes)
event_types EventType.decision_task_started =
    some (λ h.
      Option.map EventAttributes.decision_task_started h.decision_task_started_event_attributes)
event_types EventType.decision_task_completed = some (λ h.
    Option.map EventAttributes.decision_task_completed h.decision_task_completed_event_attributes)
event_types EventType.decision_task_timed_out = some (λ h.
    Option.map EventAttributes.decision_task_timed_out h.decision_task_timed_out_event_attributes)
event_types EventType.activity_task_scheduled = some (λ h.
    Option.map EventAttributes.activity_task_scheduled h.activity_task_scheduled_event_attributes)
event_types EventType.schedule_activity_task_failed = some (λ h.
    Option.map EventAttributes.schedule_activity_task_failed
      h.schedule_activity_task_failed_event_attributes)
event_types EventType.activity_task_started =
    some (λ h.
      Option.map EventAttributes.activity_task_started h.activity_task_started_event_attributes)
event_types EventType.activity_task_completed = some (λ h.
    Option.map EventAttributes.activity_task_completed h.activity_task_completed_event_attributes)
event_types EventType.activity_task_failed =
    some
      (λ h. Option.map EventAttributes.activity_task_failed h.activity_task_failed_event_attributes)
event_types EventType.activity_task_timed_out = some (λ h.
    Option.map EventAttributes.activity_task_timed_out h.activity_task_timed_out_event_attributes)
event_types EventType.activity_task_canceled = some (λ h.
    Option.map EventAttributes.activity_task_canceled h.activity_task_canceled_event_attributes)
event_types EventType.activity_task_cancel_requested = some (λ h.
    Option.map EventAttributes.activity_task_cancel_requested
      h.activity_task_cancel_requested_event_attributes)
event_types EventType.request_cancel_activity_task_failed = some (λ h.
    Option.map EventAttributes.request_cancel_activity_task_failed
      h.request_cancel_activity_task_failed_event_attributes)
event_types EventType.workflow_execution_signaled = some (λ h.
    Option.map EventAttributes.workflow_execution_signaled
      h.workflow_execution_signaled_event_attributes)
event_types EventType.marker_recorded =
    some (λ h. Option.map EventAttributes.marker_recorded h.marker_recorded_event_attributes)
event_types EventType.record_marker_failed =
    some
      (λ h. Option.map EventAttributes.record_marker_failed h.record_marker_failed_event_attributes)
event_types EventType.timer_started =
    some (λ h. Option.map EventAttributes.timer_started h.timer_started_event_attributes)
event_types EventType.start_timer_failed =
    some (λ h. Option.map EventAttributes.start_timer_failed h.start_timer_failed_event_attributes)
event_types EventType.timer_fired =
    some (λ h. Option.map EventAttributes.timer_fired h.timer_fired_event_attributes)
event_types EventType.timer_canceled =
    some (λ h. Option.map EventAttributes.timer_canceled h.timer_canceled_event_attributes)
event_types EventType.cancel_timer_failed =
    some
      (λ h. Option.map EventAttributes.cancel_timer_failed h.cancel_timer_failed_event_attributes)
event_types EventType.start_child_workflow_execution_initiated = some (λ h.
    Option.map EventAttributes.start_child_workflow_execution_initiated
      h.start_child_workflow_execution_initiated_event_attributes)
event_types EventType.start_child_workflow_execution_failed = some (λ h.
    Option.map EventAttributes.start_child_workflow_execution_failed
      h.start_child_workflow_execution_failed_event_attributes)
event_types EventType.child_workflow_execution_started = some (λ h.
    Option.map EventAttributes.child_workflow_execution_started
      h.child_workflow_execution_started_event_attributes)
event_types EventType.child_workflow_execution_completed = some (λ h.
    Option.map EventAttributes.child_workflow_execution_completed
      h.child_workflow_execution_completed_event_attributes)
event_types EventType.child_workflow_execution_failed = some (λ h.
    Option.map EventAttributes.child_workflow_execution_failed
      h.child_workflow_execution_failed_event_attributes)
event_types EventType.child_workflow_execution_timed_out = some (λ h.
    Option.map EventAttributes.child_workflow_execution_timed_out
      h.child_workflow_execution_timed_out_event_attributes)
event_types EventType.child_workflow_execution_canceled = some (λ h.
    Option.map EventAttributes.child_workflow_execution_canceled
      h.child_workflow_execution_canceled_event_attributes)
event_types EventType.child_workflow_execution_terminated = some (λ h.
    Option.map EventAttributes.child_workflow_execution_terminated
      h.child_workflow_execution_terminated_event_attributes)
event_types EventType.signal_external_workflow_execution_initiated = some (λ h.
    Option.map EventAttributes.signal_external_workflow_execution_initiated
      h.signal_external_workflow_execution_initiated_event_attributes)
event_types EventType.signal_external_workflow_execution_failed = some (λ h.
    Option.map EventAttributes.signal_external_workflow_execution_failed
      h.signal_external_workflow_execution_failed_event_attributes)
event_types EventType.external_workflow_execution_signaled = some (λ h.
    Option.map EventAttributes.external_workflow_execution_signaled
      h.external_workflow_execution_signaled_event_attributes)
event_types EventType.request_cancel_external_workflow_execution_initiated = some (λ h.
    Option.map EventAttributes.request_cancel_external_workflow_execution_initiated
      h.request_cancel_external_workflow_execution_initiated_event_attributes)
event_types EventType.request_cancel_external_workflow_execution_failed = some (λ h.
    Option.map EventAttributes.request_cancel_external_workflow_execution_failed
      h.request_cancel_external_workflow_execution_failed_event_attributes)
event_types EventType.external_workflow_execution_cancel_requested = some (λ h.
    Option.map EventAttributes.external_workflow_execution_cancel_requested
      h.external_workflow_execution_cancel_requested_event_attributes)
event_types (EventType.other _) = none

-- The keys of the table, in some order: Go leaves it open.
unfoldable pub all_event_types : List EventType
all_event_types =
    EventType.workflow_execution_started ∷ EventType.workflow_execution_cancel_requested
    ∷ EventType.workflow_execution_completed ∷ EventType.complete_workflow_execution_failed
    ∷ EventType.workflow_execution_failed ∷ EventType.fail_workflow_execution_failed
    ∷ EventType.workflow_execution_timed_out ∷ EventType.workflow_execution_canceled
    ∷ EventType.cancel_workflow_execution_failed ∷ EventType.workflow_execution_continued_as_new
    ∷ EventType.continue_as_new_workflow_execution_failed ∷ EventType.workflow_execution_terminated
    ∷ EventType.decision_task_scheduled ∷ EventType.decision_task_started
    ∷ EventType.decision_task_completed ∷ EventType.decision_task_timed_out
    ∷ EventType.activity_task_scheduled ∷ EventType.schedule_activity_task_failed
    ∷ EventType.activity_task_started ∷ EventType.activity_task_completed
    ∷ EventType.activity_task_failed ∷ EventType.activity_task_timed_out
    ∷ EventType.activity_task_canceled ∷ EventType.activity_task_cancel_requested
    ∷ EventType.request_cancel_activity_task_failed ∷ EventType.workflow_execution_signaled
    ∷ EventType.marker_recorded ∷ EventType.record_marker_failed ∷ EventType.timer_started
    ∷ EventType.start_timer_failed ∷ EventType.timer_fired ∷ EventType.timer_canceled
    ∷ EventType.cancel_timer_failed ∷ EventType.start_child_workflow_execution_initiated
    ∷ EventType.start_child_workflow_execution_failed ∷ EventType.child_workflow_execution_started
    ∷ EventType.child_workflow_execution_completed ∷ EventType.child_workflow_execution_failed
    ∷ EventType.child_workflow_execution_timed_out ∷ EventType.child_workflow_execution_canceled
    ∷ EventType.child_workflow_execution_terminated
    ∷ EventType.signal_external_workflow_execution_initiated
    ∷ EventType.signal_external_workflow_execution_failed
    ∷ EventType.external_workflow_execution_signaled
    ∷ EventType.request_cancel_external_workflow_execution_initiated
    ∷ EventType.request_cancel_external_workflow_execution_failed
    ∷ EventType.external_workflow_execution_cancel_requested ∷ []
