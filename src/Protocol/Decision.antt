-- ===== src/Protocol/Decision.antt =====
-- A decision: a type and one optional attributes field for each type (protocol.go).
use swf4go.Prelude.{Option}
use swf4go.Protocol.DecisionAttributes.{
  CancelTimerDecisionAttributes, CancelWorkflowExecutionDecisionAttributes,
  CompleteWorkflowExecutionDecisionAttributes, ContinueAsNewWorkflowExecutionDecisionAttributes,
  FailWorkflowExecutionDecisionAttributes, RecordMarkerDecisionAttributes,
  RequestCancelActivityTaskDecisionAttributes,
  RequestCancelExternalWorkflowExecutionDecisionAttributes, ScheduleActivityTaskDecisionAttributes,
  SignalExternalWorkflowExecutionDecisionAttributes, StartChildWorkflowExecutionDecisionAttributes,
  StartTimerDecisionAttributes,
}
use swf4go.Protocol.DecisionType.{DecisionType}

pub record Decision : Type 0 where
  pub cancel_timer_decision_attributes : Option CancelTimerDecisionAttributes
  pub cancel_workflow_execution_decision_attributes :
      Option CancelWorkflowExecutionDecisionAttributes
  pub complete_workflow_execution_decision_attributes :
      Option CompleteWorkflowExecutionDecisionAttributes
  pub continue_as_new_workflow_execution_decision_attributes :
      Option ContinueAsNewWorkflowExecutionDecisionAttributes
  pub decision_type : DecisionType
  pub fail_workflow_execution_decision_attributes : Option FailWorkflowExecutionDecisionAttributes
  pub record_marker_decision_attributes : Option RecordMarkerDecisionAttributes
  pub request_cancel_activity_task_decision_attributes :
      Option RequestCancelActivityTaskDecisionAttributes
  pub request_cancel_external_workflow_execution_decision_attributes :
      Option RequestCancelExternalWorkflowExecutionDecisionAttributes
  pub schedule_activity_task_decision_attributes : Option ScheduleActivityTaskDecisionAttributes
  pub signal_external_workflow_execution_decision_attributes :
      Option SignalExternalWorkflowExecutionDecisionAttributes
  pub start_child_workflow_execution_decision_attributes :
      Option StartChildWorkflowExecutionDecisionAttributes
  pub start_timer_decision_attributes : Option StartTimerDecisionAttributes
