-- ===== src/Protocol/Admin.antt =====
-- The requests that register and deprecate types and domains (protocol.go, lines 886 to 933).
use swf4go.Prelude.{Option, String}
use swf4go.Protocol.Common.{ActivityType, TaskList, WorkflowType}

pub record DeprecateActivityType : Type 0 where
  pub activity_type : ActivityType
  pub domain : String

pub record DeprecateWorkflowType : Type 0 where
  pub domain : String
  pub workflow_type : WorkflowType

pub record DeprecateDomain : Type 0 where
  pub name : String

pub record RegisterActivityType : Type 0 where
  pub default_task_heartbeat_timeout : String
  pub default_task_list : Option TaskList
  pub default_task_schedule_to_close_timeout : String
  pub default_task_schedule_to_start_timeout : String
  pub default_task_start_to_close_timeout : String
  pub description : String
  pub domain : String
  pub name : String
  pub version : String

pub record RegisterDomain : Type 0 where
  pub description : String
  pub name : String
  pub workflow_execution_retention_period_in_days : String

pub record RegisterWorkflowType : Type 0 where
  pub default_child_policy : String
  pub default_execution_start_to_close_timeout : String
  pub default_task_list : Option TaskList
  pub default_task_start_to_close_timeout : String
  pub description : String
  pub domain : String
  pub name : String
  pub version : String
