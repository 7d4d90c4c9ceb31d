-- ===== src/Protocol/Workers.antt =====
-- The requests and responses of workflow starters and workers (protocol.go).
use swf4go.Prelude.{Bool, List, Option, String, ℕ}
use swf4go.Protocol.Common.{
  ActivityType, TaskList, WorkflowExecution, WorkflowType, WorkflowTypeInfo,
}
use swf4go.Protocol.Decision.{Decision}
use swf4go.Protocol.HistoryEvent.{HistoryEvent}

pub record StartWorkflowRequest : Type 0 where
  pub child_policy : String
  pub domain : String
  pub execution_start_to_close_timeout : String
  pub input : String
  pub tag_list : List String
  pub task_list : Option TaskList
  pub task_start_to_close_timeout : String
  pub workflow_id : String
  pub workflow_type : WorkflowType

pub record StartWorkflowResponse : Type 0 where
  pub run_id : String

pub record RequestCancelWorkflowExecution : Type 0 where
  pub domain : String
  pub run_id : String
  pub workflow_id : String

pub record SignalWorkflowRequest : Type 0 where
  pub domain : String
  pub input : String
  pub run_id : String
  pub signal_name : String
  pub workflow_id : String

pub record ListWorkflowTypesRequest : Type 0 where
  pub domain : String
  pub maximum_page_size : ℕ
  pub name : String
  pub next_page_token : String
  pub registration_status : String
  pub reverse_order : Bool

pub record ListWorkflowTypesResponse : Type 0 where
  pub next_page_token : String
  pub type_infos : List WorkflowTypeInfo

pub record TerminateWorkflowExecution : Type 0 where
  pub child_policy : String
  pub details : String
  pub domain : String
  pub reason : String
  pub run_id : String
  pub workflow_id : String

pub record PollForDecisionTaskRequest : Type 0 where
  pub domain : String
  pub identity : String
  pub maximum_page_size : ℕ
  pub next_page_token : String
  pub reverse_order : Bool
  pub task_list : TaskList

pub record PollForDecisionTaskResponse : Type 0 where
  pub events : List HistoryEvent
  pub next_page_token : String
  pub previous_started_event_id : ℕ
  pub started_event_id : ℕ
  pub task_token : String
  pub workflow_execution : WorkflowExecution
  pub workflow_type : WorkflowType

pub record RespondDecisionTaskCompletedRequest : Type 0 where
  pub decisions : List Decision
  pub execution_context : String
  pub task_token : String

pub record PollForActivityTaskRequest : Type 0 where
  pub domain : String
  pub identity : String
  pub task_list : TaskList

pub record PollForActivityTaskResponse : Type 0 where
  pub activity_id : String
  pub activity_type : ActivityType
  pub input : String
  pub started_event_id : ℕ
  pub task_token : String
  pub workflow_execution : WorkflowExecution

pub record RespondActivityTaskCompletedRequest : Type 0 where
  pub result : String
  pub task_token : String

pub record RespondActivityTaskFailedRequest : Type 0 where
  pub details : String
  pub reason : String
  pub task_token : String

pub record RespondActivityTaskCanceledRequest : Type 0 where
  pub details : String
  pub task_token : String

pub record RecordActivityTaskHeartbeatRequest : Type 0 where
  pub details : String
  pub task_token : String

pub record RecordActivityTaskHeartbeatResponse : Type 0 where
  pub cancel_requested : Bool
