-- ===== src/Protocol/HistoryEvent.antt =====
-- A history event: an identifier, a type, and one optional attributes field for each type (protocol.go).
use swf4go.Prelude.{Option, ℕ}
use swf4go.Protocol.ActivityEvents.{
  ActivityTaskCancelRequestedEventAttributes, ActivityTaskCanceledEventAttributes,
  ActivityTaskCompletedEventAttributes, ActivityTaskFailedEventAttributes,
  ActivityTaskScheduledEventAttributes, ActivityTaskStartedEventAttributes,
  ActivityTaskTimedOutEventAttributes, CancelTimerFailedEventAttributes,
  DecisionTaskCompletedEventAttributes, DecisionTaskScheduledEventAttributes,
  DecisionTaskStartedEventAttributes, DecisionTaskTimedOutEventAttributes,
  MarkerRecordedEventAttributes, RecordMarkerFailedEventAttributes,
  RequestCancelActivityTaskFailedEventAttributes, ScheduleActivityTaskFailedEventAttributes,
  StartTimerFailedEventAttributes, TimerCanceledEventAttributes, TimerFiredEventAttributes,
  TimerStartedEventAttributes,
}
use swf4go.Protocol.Date.{Date}
use swf4go.Protocol.EventType.{EventType}
use swf4go.Protocol.WorkflowEvents.{
  CancelWorkflowExecutionFailedEventAttributes, ChildWorkflowExecutionCanceledEventAttributes,
  ChildWorkflowExecutionCompletedEventAttributes, ChildWorkflowExecutionStartedEventAttributes,
  ChildWorkflowExecutionTerminatedEventAttributes, ChildWorkflowExecutionTimedOutEventAttributes,
  CompleteWorkflowExecutionFailedEventAttributes,
  ContinueAsNewWorkflowExecutionFailedEventAttributes,
  ExternalWorkflowExecutionCancelRequestedEventAttributes,
  ExternalWorkflowExecutionSignaledEventAttributes, FailWorkflowExecutionFailedEventAttributes,
  RequestCancelExternalWorkflowExecutionFailedEventAttributes,
  RequestCancelExternalWorkflowExecutionInitiatedEventAttributes,
  SignalExternalWorkflowExecutionFailedEventAttributes,
  SignalExternalWorkflowExecutionInitiatedEventAttributes,
  StartChildWorkflowExecutionFailedEventAttributes,
  StartChildWorkflowExecutionInitiatedEventAttributes,
  WorkflowExecutionCancelRequestedEventAttributes, WorkflowExecutionCanceledEventAttributes,
  WorkflowExecutionCompletedEventAttributes, WorkflowExecutionContinuedAsNewEventAttributes,
  WorkflowExecutionFailedEventAttributes, WorkflowExecutionSignaledEventAttributes,
  WorkflowExecutionStartedEventAttributes, WorkflowExecutionTerminatedEventAttributes,
  WorkflowExecutionTimedOutEventAttributes,
}

pub record HistoryEvent : Type 0 where
  pub activity_task_cancel_requested_event_attributes :
      Option ActivityTaskCancelRequestedEventAttributes
  pub activity_task_canceled_event_attributes : Option ActivityTaskCanceledEventAttributes
  pub activity_task_completed_event_attributes : Option ActivityTaskCompletedEventAttributes
  pub activity_task_failed_event_attributes : Option ActivityTaskFailedEventAttributes
  pub activity_task_scheduled_event_attributes : Option ActivityTaskScheduledEventAttributes
  pub activity_task_started_event_attributes : Option ActivityTaskStartedEventAttributes
  pub activity_task_timed_out_event_attributes : Option ActivityTaskTimedOutEventAttributes
  pub cancel_timer_failed_event_attributes : Option CancelTimerFailedEventAttributes
  pub cancel_workflow_execution_failed_event_attributes :
      Option CancelWorkflowExecutionFailedEventAttributes
  pub child_workflow_execution_canceled_event_attributes :
      Option ChildWorkflowExecutionCanceledEventAttributes
  pub child_workflow_execution_completed_event_attributes :
      Option ChildWorkflowExecutionCompletedEventAttributes
  pub child_workflow_execution_failed_event_attributes :
      Option CancelWorkflowExecutionFailedEventAttributes
  pub child_workflow_execution_started_event_attributes :
      Option ChildWorkflowExecutionStartedEventAttributes
  pub child_workflow_execution_terminated_event_attributes :
      Option ChildWorkflowExecutionTerminatedEventAttributes
  pub child_workflow_execution_timed_out_event_attributes :
      Option ChildWorkflowExecutionTimedOutEventAttributes
  pub complete_workflow_execution_failed_event_attributes :
      Option CompleteWorkflowExecutionFailedEventAttributes
  pub continue_as_new_workflow_execution_failed_event_attributes :
      Option ContinueAsNewWorkflowExecutionFailedEventAttributes
  pub decision_task_completed_event_attributes : Option DecisionTaskCompletedEventAttributes
  pub decision_task_scheduled_event_attributes : Option DecisionTaskScheduledEventAttributes
  pub decision_task_started_event_attributes : Option DecisionTaskStartedEventAttributes
  pub decision_task_timed_out_event_attributes : Option DecisionTaskTimedOutEventAttributes
  pub event_id : ℕ
  pub event_timestamp : Option Date
  pub event_type : EventType
  pub external_workflow_execution_cancel_requested_event_attributes :
      Option ExternalWorkflowExecutionCancelRequestedEventAttributes
  pub external_workflow_execution_signaled_event_attributes :
      Option ExternalWorkflowExecutionSignaledEventAttributes
  pub fail_workflow_execution_failed_event_attributes :
      Option FailWorkflowExecutionFailedEventAttributes
  pub marker_recorded_event_attributes : Option MarkerRecordedEventAttributes
  pub record_marker_failed_event_attributes : Option RecordMarkerFailedEventAttributes
  pub request_cancel_activity_task_failed_event_attributes :
      Option RequestCancelActivityTaskFailedEventAttributes
  pub request_cancel_external_workflow_execution_failed_event_attributes :
      Option RequestCancelExternalWorkflowExecutionFailedEventAttributes
  pub request_cancel_external_workflow_execution_initiated_event_attributes :
      Option RequestCancelExternalWorkflowExecutionInitiatedEventAttributes
  pub schedule_activity_task_failed_event_attributes :
      Option ScheduleActivityTaskFailedEventAttributes
  pub signal_external_workflow_execution_failed_event_attributes :
      Option SignalExternalWorkflowExecutionFailedEventAttributes
  pub signal_external_workflow_execution_initiated_event_attributes :
      Option SignalExternalWorkflowExecutionInitiatedEventAttributes
  pub start_child_workflow_execution_failed_event_attributes :
      Option StartChildWorkflowExecutionFailedEventAttributes
  pub start_child_workflow_execution_initiated_event_attributes :
      Option StartChildWorkflowExecutionInitiatedEventAttributes
  pub start_timer_failed_event_attributes : Option StartTimerFailedEventAttributes
  pub timer_canceled_event_attributes : Option TimerCanceledEventAttributes
  pub timer_fired_event_attributes : Option TimerFiredEventAttributes
  pub timer_started_event_attributes : Option TimerStartedEventAttributes
  pub workflow_execution_cancel_requested_event_attributes :
      Option WorkflowExecutionCancelRequestedEventAttributes
  pub workflow_execution_canceled_event_attributes : Option WorkflowExecutionCanceledEventAttributes
  pub workflow_execution_completed_event_attributes :
      Option WorkflowExecutionCompletedEventAttributes
  pub workflow_execution_continued_as_new_event_attributes :
      Option WorkflowExecutionContinuedAsNewEventAttributes
  pub workflow_execution_failed_event_attributes : Option WorkflowExecutionFailedEventAttributes
  pub workflow_execution_signaled_event_attributes : Option WorkflowExecutionSignaledEventAttributes
  pub workflow_execution_started_event_attributes : Option WorkflowExecutionStartedEventAttributes
  pub workflow_execution_terminated_event_attributes :
      Option WorkflowExecutionTerminatedEventAttributes
  pub workflow_execution_timed_out_event_attributes :
      Option WorkflowExecutionTimedOutEventAttributes
