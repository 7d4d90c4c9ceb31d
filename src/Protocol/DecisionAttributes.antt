-- ===== src/Protocol/DecisionAttributes.antt =====
-- The attributes of the decisions (protocol.go, lines 738 to 828).
use swf4go.Prelude.{List, Option, String}
use swf4go.Protocol.Common.{ActivityType, TaskList, WorkflowType}

pub record CancelTimerDecisionAttributes : Type 0 where
  pub timer_id : String

pub record CancelWorkflowExecutionDecisionAttributes : Type 0 where
  pub details : String

pub record CompleteWorkflowExecutionDecisionAttributes : Type 0 where
  pub result : String

pub record ContinueAsNewWorkflowExecutionDecisionAttributes : Type 0 where
  pub child_policy : String
  pub execution_start_to_close_timeout : String
  pub input : String
  pub tag_list : List String
  pub task_list : Option TaskList
  pub task_start_to_close_timeout : String
  pub workflow_type_version : String

pub record FailWorkflowExecutionDecisionAttributes : Type 0 where
  pub details : String
  pub reason : String

pub record RecordMarkerDecisionAttributes : Type 0 where
  pub details : String
  pub marker_name : String

pub record RequestCancelActivityTaskDecisionAttributes : Type 0 where
  pub activity_id : String

pub record RequestCancelExternalWorkflowExecutionDecisionAttributes : Type 0 where
  pub control : String
  pub run_id : String
  pub workflow_id : String

pub record ScheduleActivityTaskDecisionAttributes : Type 0 where
  pub activity_id : String
  pub activity_type : ActivityType
  pub control : String
  pub heartbeat_timeout : String
  pub input : String
  pub schedule_to_close_timeout : String
  pub schedule_to_start_timeout : String
  pub start_to_close_timeout : String
  pub task_list : Option TaskList

pub record SignalExternalWorkflowExecutionDecisionAttributes : Type 0 where
  pub control : String
  pub input : String
  pub run_id : String
  pub signal_name : String
  pub workflow_id : String

pub record StartChildWorkflowExecutionDecisionAttributes : Type 0 where
  pub child_policy : String
  pub control : String
  pub execution_start_to_close_timeout : String
  pub input : String
  pub tag_list : List String
  pub task_list : TaskList
  pub task_start_to_close_timeout : String
  pub workflow_id : String
  pub workflow_type : WorkflowType

pub record StartTimerDecisionAttributes : Type 0 where
  pub control : String
  pub start_to_fire_timeout : String
  pub timer_id : String
