-- ===== src/Protocol/Zero.antt =====
-- Go's zero values of the structs that the program, or a test, fills in part.
use swf4go.Prelude.{[], none}
use swf4go.Protocol.DecisionAttributes.{
  SignalExternalWorkflowExecutionDecisionAttributes,
  ContinueAsNewWorkflowExecutionDecisionAttributes, StartTimerDecisionAttributes,
}
use swf4go.Protocol.Decision.{Decision}
use swf4go.Protocol.ActivityEvents.{
  MarkerRecordedEventAttributes, ActivityTaskScheduledEventAttributes,
  ActivityTaskCompletedEventAttributes, TimerFiredEventAttributes,
}
use swf4go.Protocol.WorkflowEvents.{
  WorkflowExecutionSignaledEventAttributes, WorkflowExecutionStartedEventAttributes,
}
use swf4go.Protocol.HistoryEvent.{HistoryEvent}
use swf4go.Protocol.EventType
use swf4go.Protocol.DecisionType

abbrev pub zero_signal_external_workflow_execution :
    SignalExternalWorkflowExecutionDecisionAttributes
zero_signal_external_workflow_execution = record {
  control = "";
  input = "";
  run_id = "";
  signal_name = "";
  workflow_id = "";
}

abbrev pub zero_continue_as_new_workflow_execution :
    ContinueAsNewWorkflowExecutionDecisionAttributes
zero_continue_as_new_workflow_execution = record {
  child_policy = "";
  execution_start_to_close_timeout = "";
  input = "";
  tag_list = [];
  task_list = none;
  task_start_to_close_timeout = "";
  workflow_type_version = "";
}

abbrev pub zero_start_timer : StartTimerDecisionAttributes
zero_start_timer = record { control = ""; start_to_fire_timeout = ""; timer_id = "" }

abbrev pub zero_decision : Decision
zero_decision = record {
  cancel_timer_decision_attributes = none;
  cancel_workflow_execution_decision_attributes = none;
  complete_workflow_execution_decision_attributes = none;
  continue_as_new_workflow_execution_decision_attributes = none;
  decision_type = DecisionType.other "";
  fail_workflow_execution_decision_attributes = none;
  record_marker_decision_attributes = none;
  request_cancel_activity_task_decision_attributes = none;
  request_cancel_external_workflow_execution_decision_attributes = none;
  schedule_activity_task_decision_attributes = none;
  signal_external_workflow_execution_decision_attributes = none;
  start_child_workflow_execution_decision_attributes = none;
  start_timer_decision_attributes = none;
}

abbrev pub zero_marker_recorded : MarkerRecordedEventAttributes
zero_marker_recorded = record {
  decision_task_completed_event_id = 0;
  details = "";
  marker_name = "";
}

abbrev pub zero_workflow_execution_signaled : WorkflowExecutionSignaledEventAttributes
zero_workflow_execution_signaled = record {
  external_initiated_event_id = 0;
  external_workflow_execution = (record { run_id = ""; workflow_id = "" });
  input = "";
  signal_name = "";
}

abbrev pub zero_workflow_execution_started : WorkflowExecutionStartedEventAttributes
zero_workflow_execution_started = record {
  child_policy = "";
  continued_execution_run_id = "";
  execution_start_to_close_timeout = "";
  input = "";
  parent_initiated_event_id = 0;
  parent_workflow_execution = (record { run_id = ""; workflow_id = "" });
  tag_list = [];
  task_list = (record { name = "" });
  task_start_to_close_timeout = "";
  workflow_type = (record { name = ""; version = "" });
}

abbrev pub zero_activity_task_scheduled : ActivityTaskScheduledEventAttributes
zero_activity_task_scheduled = record {
  activity_id = "";
  activity_type = (record { name = ""; version = "" });
  control = "";
  decision_task_completed_event_id = 0;
  heartbeat_timeout = "";
  input = "";
  schedule_to_close_timeout = "";
  schedule_to_start_timeout = "";
  start_to_close_timeout = "";
  task_list = (record { name = "" });
}

abbrev pub zero_activity_task_completed : ActivityTaskCompletedEventAttributes
zero_activity_task_completed = record { result = ""; scheduled_event_id = 0; started_event_id = 0 }

abbrev pub zero_timer_fired : TimerFiredEventAttributes
zero_timer_fired = record { started_event_id = 0; timer_id = "" }

abbrev pub zero_history_event : HistoryEvent
zero_history_event = record {
  activity_task_cancel_requested_event_attributes = none;
  activity_task_canceled_event_attributes = none;
  activity_task_completed_event_attributes = none;
  activity_task_failed_event_attributes = none;
  activity_task_scheduled_event_attributes = none;
  activity_task_started_event_attributes = none;
  activity_task_timed_out_event_attributes = none;
  cancel_timer_failed_event_attributes = none;
  cancel_workflow_execution_failed_event_attributes = none;
  child_workflow_execution_canceled_event_attributes = none;
  child_workflow_execution_completed_event_attributes = none;
  child_workflow_execution_failed_event_attributes = none;
  child_workflow_execution_started_event_attributes = none;
  child_workflow_execution_terminated_event_attributes = none;
  child_workflow_execution_timed_out_event_attributes = none;
  complete_workflow_execution_failed_event_attributes = none;
  continue_as_new_workflow_execution_failed_event_attributes = none;
  decision_task_completed_event_attributes = none;
  decision_task_scheduled_event_attributes = none;
  decision_task_started_event_attributes = none;
  decision_task_timed_out_event_attributes = none;
  event_id = 0;
  event_timestamp = none;
  event_type = EventType.other "";
  external_workflow_execution_cancel_requested_event_attributes = none;
  external_workflow_execution_signaled_event_attributes = none;
  fail_workflow_execution_failed_event_attributes = none;
  marker_recorded_event_attributes = none;
  record_marker_failed_event_attributes = none;
  request_cancel_activity_task_failed_event_attributes = none;
  request_cancel_external_workflow_execution_failed_event_attributes = none;
  request_cancel_external_workflow_execution_initiated_event_attributes = none;
  schedule_activity_task_failed_event_attributes = none;
  signal_external_workflow_execution_failed_event_attributes = none;
  signal_external_workflow_execution_initiated_event_attributes = none;
  start_child_workflow_execution_failed_event_attributes = none;
  start_child_workflow_execution_initiated_event_attributes = none;
  start_timer_failed_event_attributes = none;
  timer_canceled_event_attributes = none;
  timer_fired_event_attributes = none;
  timer_started_event_attributes = none;
  workflow_execution_cancel_requested_event_attributes = none;
  workflow_execution_canceled_event_attributes = none;
  workflow_execution_completed_event_attributes = none;
  workflow_execution_continued_as_new_event_attributes = none;
  workflow_execution_failed_event_attributes = none;
  workflow_execution_signaled_event_attributes = none;
  workflow_execution_started_event_attributes = none;
  workflow_execution_terminated_event_attributes = none;
  workflow_execution_timed_out_event_attributes = none;
}
