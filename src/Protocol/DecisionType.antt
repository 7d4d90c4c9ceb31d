-- ===== src/Protocol/DecisionType.antt =====
-- The valid values of `DecisionType` in a decision, and their texts (protocol.go, lines 672 to 686).
use swf4go.Prelude.{String}

pub data DecisionType : Type 0 where
  schedule_activity_task : DecisionType
  request_cancel_activity_task : DecisionType
  complete_workflow_execution : DecisionType
  fail_workflow_execution : DecisionType
  cancel_workflow_execution : DecisionType
  continue_as_new_workflow_execution : DecisionType
  record_marker : DecisionType
  start_timer : DecisionType
  cancel_timer : DecisionType
  signal_external_workflow_execution : DecisionType
  request_cancel_external_workflow_execution : DecisionType
  start_child_workflow_execution : DecisionType
  -- a text that is none of the constants
  other : String → DecisionType

-- The text of a type on the wire.
unfoldable pub decision_type_text : DecisionType → String
decision_type_text schedule_activity_task = "ScheduleActivityTask"
decision_type_text request_cancel_activity_task = "RequestCancelActivityTask"
decision_type_text complete_workflow_execution = "CompleteWorkflowExecution"
decision_type_text fail_workflow_execution = "FailWorkflowExecution"
decision_type_text cancel_workflow_execution = "CancelWorkflowExecution"
decision_type_text continue_as_new_workflow_execution = "ContinueAsNewWorkflowExecution"
decision_type_text record_marker = "RecordMarker"
decision_type_text start_timer = "StartTimer"
decision_type_text cancel_timer = "CancelTimer"
decision_type_text signal_external_workflow_execution = "SignalExternalWorkflowExecution"
decision_type_text request_cancel_external_workflow_execution =
    "RequestCancelExternalWorkflowExecution"
decision_type_text start_child_workflow_execution = "StartChildWorkflowExecution"
decision_type_text (other text) = text
