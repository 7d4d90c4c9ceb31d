-- ===== src/Protocol/Info.antt =====
-- The requests and responses that describe, count and list (protocol.go, lines 935 to 1196).
use swf4go.Prelude.{Bool, List, Option, String, ℕ, some, none}
use swf4go.Protocol.Common.{
  ActivityType, ActivityTypeInfo, TaskList, WorkflowExecution, WorkflowType, WorkflowTypeInfo,
}
use swf4go.Protocol.Date.{Date, pos, time_unix}
use swf4go.Protocol.HistoryEvent.{HistoryEvent}

pub record StatusFilter : Type 0 where
  pub status : String

pub record TimeFilter : Type 0 where
  pub latest_date : Option Date
  pub oldest_date : Option Date

abbrev pub zero_time_filter : TimeFilter
zero_time_filter = record { latest_date = none; oldest_date = some (time_unix (pos 0)) }

pub record ExecutionFilter : Type 0 where
  pub workflow_id : String

pub record TagFilter : Type 0 where
  pub tag : String

pub record TypeFilter : Type 0 where
  pub name : String
  pub version : String

pub record CountClosedWorkflowExecutionsRequest : Type 0 where
  pub close_status_filter : Option StatusFilter
  pub close_time_filter : Option TimeFilter
  pub domain : String
  pub execution_filter : Option ExecutionFilter
  pub start_time_filter : Option TimeFilter
  pub tag_filter : Option TagFilter
  pub type_filter : Option TypeFilter

pub record CountOpenWorkflowExecutionsRequest : Type 0 where
  pub domain : String
  pub execution_filter : Option ExecutionFilter
  pub start_time_filter : TimeFilter
  pub tag_filter : Option TagFilter
  pub type_filter : Option TypeFilter

pub record CountPendingActivityTasksRequest : Type 0 where
  pub domain : String
  pub task_list : TaskList

pub record CountPendingDecisionTasksRequest : Type 0 where
  pub domain : String
  pub task_list : TaskList

pub record DescribeActivityTypeRequest : Type 0 where
  pub activity_type : ActivityType
  pub domain : String

pub record ActivityTypeConfiguration : Type 0 where
  pub default_task_heartbeat_timeout : String
  pub default_task_list : TaskList
  pub default_task_schedule_to_close_timeout : String
  pub default_task_schedule_to_start_timeout : String
  pub default_task_start_to_close_timeout : String

pub record DescribeActivityTypeResponse : Type 0 where
  pub configuration : ActivityTypeConfiguration
  pub type_info : ActivityTypeInfo

pub record DescribeDomainRequest : Type 0 where
  pub name : String

pub record DomainConfiguration : Type 0 where
  pub workflow_execution_retention_period_in_days : String

pub record DomainInfo : Type 0 where
  pub description : String
  pub name : String
  pub status : String

pub record DescribeDomainResponse : Type 0 where
  pub configuration : DomainConfiguration
  pub domain_info : DomainInfo

pub record DescribeWorkflowExecutionRequest : Type 0 where
  pub domain : String
  pub execution : WorkflowExecution

pub record ExecutionConfiguration : Type 0 where
  pub child_policy : String
  pub execution_start_to_close_timeout : String
  pub task_list : TaskList
  pub task_start_to_close_timeout : String

pub record WorkflowExecutionInfo : Type 0 where
  pub cancel_requested : Bool
  pub close_status : String
  pub close_timestamp : Option Date
  pub execution : WorkflowExecution
  pub execution_status : String
  pub parent : WorkflowExecution
  pub start_timestamp : Option Date
  pub tag_list : List String
  pub workflow_type : WorkflowType

pub record OpenCounts : Type 0 where
  pub open_activity_tasks : String
  pub open_child_workflow_executions : String
  pub open_decision_tasks : String
  pub open_timers : String

pub record DescribeWorkflowExecutionResponse : Type 0 where
  pub execution_configuration : ExecutionConfiguration
  pub execution_info : WorkflowExecutionInfo
  pub latest_activity_task_timestamp : Option Date
  pub latest_execution_context : String
  pub open_counts : OpenCounts

pub record DescribeWorkflowTypeRequest : Type 0 where
  pub domain : String
  pub workflow_type : WorkflowType

pub record WorkflowConfiguration : Type 0 where
  pub default_child_policy : String
  pub default_execution_start_to_close_timeout : String
  pub default_task_list : TaskList
  pub default_task_start_to_close_timeout : String

pub record DescribeWorkflowTypeResponse : Type 0 where
  pub configuration : WorkflowConfiguration
  pub type_info : WorkflowTypeInfo

pub record GetWorkflowExecutionHistoryRequest : Type 0 where
  pub domain : String
  pub execution : WorkflowExecution
  pub maximum_page_size : ℕ
  pub next_page_token : String
  pub reverse_order : Bool

pub record GetWorkflowExecutionHistoryResponse : Type 0 where
  pub events : List HistoryEvent
  pub next_page_token : String

pub record ListActivityTypesRequest : Type 0 where
  pub domain : String
  pub maximum_page_size : ℕ
  pub name : String
  pub next_page_token : String
  pub registration_status : String
  pub reverse_order : Bool

pub record ListActivityTypesResponse : Type 0 where
  pub next_page_token : Option String
  pub type_infos : List ActivityTypeInfo

pub record ListClosedWorkflowExecutionsRequest : Type 0 where
  pub close_status_filter : Option StatusFilter
  pub close_time_filter : Option TimeFilter
  pub domain : String
  pub execution_filter : Option ExecutionFilter
  pub maximum_page_size : ℕ
  pub next_page_token : String
  pub reverse_order : Bool
  pub start_time_filter : Option TimeFilter
  pub tag_filter : Option TagFilter
  pub type_filter : Option TypeFilter

pub record ListClosedWorkflowExecutionsResponse : Type 0 where
  pub execution_infos : List WorkflowExecutionInfo
  pub next_page_token : String

pub record ListDomainsRequest : Type 0 where
  pub maximum_page_size : ℕ
  pub next_page_token : String
  pub registration_status : String
  pub reverse_order : Bool

pub record ListDomainsResponse : Type 0 where
  pub domain_infos : List DomainInfo
  pub next_page_token : String

pub record ListOpenWorkflowExecutionsRequest : Type 0 where
  pub domain : String
  pub execution_filter : Option ExecutionFilter
  pub maximum_page_size : ℕ
  pub next_page_token : String
  pub reverse_order : Bool
  pub start_time_filter : TimeFilter
  pub tag_filter : Option TagFilter
  pub type_filter : Option TypeFilter

pub record ListOpenWorkflowExecutionsResponse : Type 0 where
  pub execution_infos : List WorkflowExecutionInfo
  pub next_page_token : String

pub record CountResponse : Type 0 where
  pub count : ℕ
  pub truncated : Bool
