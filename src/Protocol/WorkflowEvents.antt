-- ===== src/Protocol/WorkflowEvents.antt =====
-- The attributes of the history events on workflow executions (protocol.go).
use swf4go.Prelude.{List, String, ℕ}
use swf4go.Protocol.Common.{TaskList, WorkflowExecution, WorkflowType}

pub record CancelWorkflowExecutionFailedEventAttributes : Type 0 where
  pub cause : String
  pub decision_task_completed_event_id : ℕ

pub record ChildWorkflowExecutionCanceledEventAttributes : Type 0 where
  pub details : String
  pub initiated_event_id : ℕ
  pub started_event_id : ℕ
  pub workflow_execution : WorkflowExecution
  pub workflow_type : WorkflowType

pub record ChildWorkflowExecutionCompletedEventAttributes : Type 0 where
  pub initiated_event_id : ℕ
  pub result : String
  pub started_event_id : ℕ
  pub workflow_execution : WorkflowExecution
  pub workflow_type : WorkflowType

pub record ChildWorkflowExecutionFailedEventAttributes : Type 0 where
  pub details : String
  pub initiated_event_id : ℕ
  pub reason : String
  pub started_event_id : ℕ
  pub workflow_execution : WorkflowExecution
  pub workflow_type : WorkflowType

pub record ChildWorkflowExecutionStartedEventAttributes : Type 0 where
  pub initiated_event_id : ℕ
  pub workflow_execution : WorkflowExecution
  pub workflow_type : WorkflowType

pub record ChildWorkflowExecutionTerminatedEventAttributes : Type 0 where
  pub initiated_event_id : ℕ
  pub started_event_id : ℕ
  pub workflow_execution : WorkflowExecution
  pub workflow_type : WorkflowType

pub record ChildWorkflowExecutionTimedOutEventAttributes : Type 0 where
  pub initiated_event_id : ℕ
  pub started_event_id : ℕ
  pub timeout_type : String
  pub workflow_execution : WorkflowExecution
  pub workflow_type : WorkflowType

pub record CompleteWorkflowExecutionFailedEventAttributes : Type 0 where
  pub cause : String
  pub decision_task_completed_event_id : ℕ

pub record ContinueAsNewWorkflowExecutionFailedEventAttributes : Type 0 where
  pub cause : String
  pub decision_task_completed_event_id : ℕ

pub record ExternalWorkflowExecutionCancelRequestedEventAttributes : Type 0 where
  pub initiated_event_id : ℕ
  pub workflow_execution : WorkflowExecution

pub record ExternalWorkflowExecutionSignaledEventAttributes : Type 0 where
  pub initiated_event_id : ℕ
  pub workflow_execution : WorkflowExecution

pub record FailWorkflowExecutionFailedEventAttributes : Type 0 where
  pub cause : String
  pub decision_task_completed_event_id : ℕ

pub record RequestCancelExternalWorkflowExecutionFailedEventAttributes : Type 0 where
  pub cause : String
  pub control : String
  pub decision_task_completed_event_id : ℕ
  pub initiated_event_id : ℕ
  pub run_id : String
  pub workflow_id : String

pub record RequestCancelExternalWorkflowExecutionInitiatedEventAttributes : Type 0 where
  pub control : String
  pub decision_task_completed_event_id : ℕ
  pub run_id : String
  pub workflow_id : String

pub record SignalExternalWorkflowExecutionFailedEventAttributes : Type 0 where
  pub cause : String
  pub control : String
  pub decision_task_completed_event_id : ℕ
  pub initiated_event_id : ℕ
  pub run_id : String
  pub workflow_id : String

pub record SignalExternalWorkflowExecutionInitiatedEventAttributes : Type 0 where
  pub control : String
  pub decision_task_completed_event_id : ℕ
  pub input : String
  pub run_id : String
  pub signal_name : String
  pub workflow_id : String

pub record StartChildWorkflowExecutionFailedEventAttributes : Type 0 where
  pub cause : String
  pub control : String
  pub decision_task_completed_event_id : ℕ
  pub initiated_event_id : ℕ
  pub workflow_id : String
  pub workflow_type : WorkflowType

pub record StartChildWorkflowExecutionInitiatedEventAttributes : Type 0 where
  pub child_policy : String
  pub control : String
  pub decision_task_completed_event_id : ℕ
  pub execution_start_to_close_timeout : String
  pub input : String
  pub tag_list : List String
  pub task_list : TaskList
  pub task_start_to_close_timeout : String
  pub workflow_id : String
  pub workflow_type : WorkflowType

pub record WorkflowExecutionCancelRequestedEventAttributes : Type 0 where
  pub cause : String
  pub external_initiated_event_id : ℕ
  pub external_workflow_execution : WorkflowExecution

pub record WorkflowExecutionCanceledEventAttributes : Type 0 where
  pub decision_task_completed_event_id : ℕ
  pub details : String

pub record WorkflowExecutionCompletedEventAttributes : Type 0 where
  pub decision_task_completed_event_id : ℕ
  pub result : String

pub record WorkflowExecutionContinuedAsNewEventAttributes : Type 0 where
  pub child_policy : String
  pub decision_task_completed_event_id : ℕ
  pub execution_start_to_close_timeout : String
  pub input : String
  pub new_execution_run_id : String
  pub tag_list : List String
  pub task_list : TaskList
  pub task_start_to_close_timeout : String
  pub workflow_type : WorkflowType

pub record WorkflowExecutionFailedEventAttributes : Type 0 where
  pub decision_task_completed_event_id : ℕ
  pub details : String
  pub reason : String

pub record WorkflowExecutionSignaledEventAttributes : Type 0 where
  pub external_initiated_event_id : ℕ
  pub external_workflow_execution : WorkflowExecution
  pub input : String
  pub signal_name : String

pub record WorkflowExecutionStartedEventAttributes : Type 0 where
  pub child_policy : String
  pub continued_execution_run_id : String
  pub execution_start_to_close_timeout : String
  pub input : String
  pub parent_initiated_event_id : ℕ
  pub parent_workflow_execution : WorkflowExecution
  pub tag_list : List String
  pub task_list : TaskList
  pub task_start_to_close_timeout : String
  pub workflow_type : WorkflowType

pub record WorkflowExecutionTerminatedEventAttributes : Type 0 where
  pub cause : String
  pub child_policy : String
  pub details : String
  pub reason : String

pub record WorkflowExecutionTimedOutEventAttributes : Type 0 where
  pub child_policy : String
  pub timeout_type : String
