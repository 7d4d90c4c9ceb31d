-- ===== src/Protocol/EventType.antt =====
-- The valid values of `EventType` in a history event, and their texts (protocol.go, lines 121 to 170).
use swf4go.Prelude.{String}

pub data EventType : Type 0 where
  workflow_execution_started : EventType
  workflow_execution_cancel_requested : EventType
  workflow_execution_completed : EventType
  complete_workflow_execution_failed : EventType
  workflow_execution_failed : EventType
  fail_workflow_execution_failed : EventType
  workflow_execution_timed_out : EventType
  workflow_execution_canceled : EventType
  cancel_workflow_execution_failed : EventType
  workflow_execution_continued_as_new : EventType
  continue_as_new_workflow_execution_failed : EventType
  workflow_execution_terminated : EventType
  decision_task_scheduled : EventType
  decision_task_started : EventType
  decision_task_completed : EventType
  decision_task_timed_out : EventType
  activity_task_scheduled : EventType
  schedule_activity_task_failed : EventType
  activity_task_started : EventType
  activity_task_completed : EventType
  activity_task_failed : EventType
  activity_task_timed_out : EventType
  activity_task_canceled : EventType
  activity_task_cancel_requested : EventType
  request_cancel_activity_task_failed : EventType
  workflow_execution_signaled : EventType
  marker_recorded : EventType
  record_marker_failed : EventType
  timer_started : EventType
  start_timer_failed : EventType
  timer_fired : EventType
  timer_canceled : EventType
  cancel_timer_failed : EventType
  start_child_workflow_execution_initiated : EventType
  start_child_workflow_execution_failed : EventType
  child_workflow_execution_started : EventType
  child_workflow_execution_completed : EventType
  child_workflow_execution_failed : EventType
  child_workflow_execution_timed_out : EventType
  child_workflow_execution_canceled : EventType
  child_workflow_execution_terminated : EventType
  signal_external_workflow_execution_initiated : EventType
  signal_external_workflow_execution_failed : EventType
  external_workflow_execution_signaled : EventType
  request_cancel_external_workflow_execution_initiated : EventType
  request_cancel_external_workflow_execution_failed : EventType
  external_workflow_execution_cancel_requested : EventType
  -- a text that is none of the constants
  other : String → EventType

-- The text of a type on the wire.
unfoldable pub event_type_text : EventType → String
event_type_text workflow_execution_started = "WorkflowExecutionStarted"
event_type_text workflow_execution_cancel_requested = "WorkflowExecutionCancelRequested"
event_type_text workflow_execution_completed = "WorkflowExecutionCompleted"
event_type_text complete_workflow_execution_failed = "CompleteWorkflowExecutionFailed"
event_type_text workflow_execution_failed = "WorkflowExecutionFailed"
event_type_text fail_workflow_execution_failed = "FailWorkflowExecutionFailed"
event_type_text workflow_execution_timed_out = "WorkflowExecutionTimedOut"
event_type_text workflow_execution_canceled = "WorkflowExecutionCanceled"
event_type_text cancel_workflow_execution_failed = "CancelWorkflowExecutionFailed"
event_type_text workflow_execution_continued_as_new = "WorkflowExecutionContinuedAsNew"
event_type_text continue_as_new_workflow_execution_failed = "ContinueAsNewWorkflowExecutionFailed"
event_type_text workflow_execution_terminated = "WorkflowExecutionTerminated"
event_type_text decision_task_scheduled = "DecisionTaskScheduled"
event_type_text decision_task_started = "DecisionTaskStarted"
event_type_text decision_task_completed = "DecisionTaskCompleted"
event_type_text decision_task_timed_out = "DecisionTaskTimedOut"
event_type_text activity_task_scheduled = "ActivityTaskScheduled"
event_type_text schedule_activity_task_failed = "ScheduleActivityTaskFailed"
event_type_text activity_task_started = "ActivityTaskStarted"
event_type_text activity_task_completed = "ActivityTaskCompleted"
event_type_text activity_task_failed = "ActivityTaskFailed"
event_type_text activity_task_timed_out = "ActivityTaskTimedOut"
event_type_text activity_task_canceled = "ActivityTaskCanceled"
event_type_text activity_task_cancel_requested = "ActivityTaskCancelRequested"
event_type_text request_cancel_activity_task_failed = "RequestCancelActivityTaskFailed"
event_type_text workflow_execution_signaled = "WorkflowExecutionSignaled"
event_type_text marker_recorded = "MarkerRecorded"
event_type_text record_marker_failed = "RecordMarkerFailed"
event_type_text timer_started = "TimerStarted"
event_type_text start_timer_failed = "StartTimerFailed"
event_type_text timer_fired = "TimerFired"
event_type_text timer_canceled = "TimerCanceled"
event_type_text cancel_timer_failed = "CancelTimerFailed"
event_type_text start_child_workflow_execution_initiated = "StartChildWorkflowExecutionInitiated"
event_type_text start_child_workflow_execution_failed = "StartChildWorkflowExecutionFailed"
event_type_text child_workflow_execution_started = "ChildWorkflowExecutionStarted"
event_type_text child_workflow_execution_completed = "ChildWorkflowExecutionCompleted"
event_type_text child_workflow_execution_failed = "ChildWorkflowExecutionFailed"
event_type_text child_workflow_execution_timed_out = "ChildWorkflowExecutionTimedOut"
event_type_text child_workflow_execution_canceled = "ChildWorkflowExecutionCanceled"
event_type_text child_workflow_execution_terminated = "ChildWorkflowExecutionTerminated"
event_type_text signal_external_workflow_execution_initiated =
    "SignalExternalWorkflowExecutionInitiated"
event_type_text signal_external_workflow_execution_failed = "SignalExternalWorkflowExecutionFailed"
event_type_text external_workflow_execution_signaled = "ExternalWorkflowExecutionSignaled"
event_type_text request_cancel_external_workflow_execution_initiated =
    "RequestCancelExternalWorkflowExecutionInitiated"
event_type_text request_cancel_external_workflow_execution_failed =
    "RequestCancelExternalWorkflowExecutionFailed"
event_type_text external_workflow_execution_cancel_requested =
    "ExternalWorkflowExecutionCancelRequested"
event_type_text (other text) = text
