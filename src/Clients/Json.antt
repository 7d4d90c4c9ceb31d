-- ===== src/Clients/Json.antt =====
-- The values that the clients write and read as JSON (clients.go, the methods of Client). The encoder and the
-- decoder of `encoding/json` are parameters.
use swf4go.Prelude.{String}
use swf4go.Go.{Attempt}
use swf4go.Protocol.ErrorResponse.{ErrorResponse}
use swf4go.Protocol.Info.{
  CountClosedWorkflowExecutionsRequest, CountOpenWorkflowExecutionsRequest,
  CountPendingActivityTasksRequest, CountPendingDecisionTasksRequest, CountResponse,
  DescribeActivityTypeRequest, DescribeActivityTypeResponse, DescribeDomainRequest,
  DescribeDomainResponse, DescribeWorkflowExecutionRequest, DescribeWorkflowExecutionResponse,
  DescribeWorkflowTypeRequest, DescribeWorkflowTypeResponse, GetWorkflowExecutionHistoryRequest,
  GetWorkflowExecutionHistoryResponse, ListActivityTypesRequest, ListActivityTypesResponse,
  ListClosedWorkflowExecutionsRequest, ListClosedWorkflowExecutionsResponse, ListDomainsRequest,
  ListDomainsResponse, ListOpenWorkflowExecutionsRequest, ListOpenWorkflowExecutionsResponse,
}
use swf4go.Protocol.Kinesis.{
  CreateStream, DescribeStreamRequest, DescribeStreamResponse, GetRecordsRequest,
  GetRecordsResponse, GetShardIteratorRequest, GetShardIteratorResponse, PutRecordRequest,
  PutRecordResponse,
}
use swf4go.Protocol.Admin.{
  DeprecateActivityType, DeprecateDomain, DeprecateWorkflowType, RegisterActivityType,
  RegisterDomain, RegisterWorkflowType,
}
use swf4go.Protocol.Workers.{
  ListWorkflowTypesRequest, ListWorkflowTypesResponse, PollForActivityTaskRequest,
  PollForActivityTaskResponse, PollForDecisionTaskRequest, PollForDecisionTaskResponse,
  RecordActivityTaskHeartbeatRequest, RecordActivityTaskHeartbeatResponse,
  RequestCancelWorkflowExecution, RespondActivityTaskCanceledRequest,
  RespondActivityTaskCompletedRequest, RespondActivityTaskFailedRequest,
  RespondDecisionTaskCompletedRequest, SignalWorkflowRequest, StartWorkflowRequest,
  StartWorkflowResponse, TerminateWorkflowExecution,
}

-- The `interface{}` of a request.
pub data Request : Type 0 where
  start_workflow_request : StartWorkflowRequest → Request
  signal_workflow_request : SignalWorkflowRequest → Request
  request_cancel_workflow_execution : RequestCancelWorkflowExecution → Request
  terminate_workflow_execution : TerminateWorkflowExecution → Request
  poll_for_decision_task_request : PollForDecisionTaskRequest → Request
  respond_decision_task_completed_request : RespondDecisionTaskCompletedRequest → Request
  poll_for_activity_task_request : PollForActivityTaskRequest → Request
  record_activity_task_heartbeat_request : RecordActivityTaskHeartbeatRequest → Request
  respond_activity_task_completed_request : RespondActivityTaskCompletedRequest → Request
  respond_activity_task_failed_request : RespondActivityTaskFailedRequest → Request
  respond_activity_task_canceled_request : RespondActivityTaskCanceledRequest → Request
  register_activity_type : RegisterActivityType → Request
  deprecate_activity_type : DeprecateActivityType → Request
  register_workflow_type : RegisterWorkflowType → Request
  deprecate_workflow_type : DeprecateWorkflowType → Request
  register_domain : RegisterDomain → Request
  deprecate_domain : DeprecateDomain → Request
  count_closed_workflow_executions_request : CountClosedWorkflowExecutionsRequest → Request
  count_open_workflow_executions_request : CountOpenWorkflowExecutionsRequest → Request
  count_pending_activity_tasks_request : CountPendingActivityTasksRequest → Request
  count_pending_decision_tasks_request : CountPendingDecisionTasksRequest → Request
  list_workflow_types_request : ListWorkflowTypesRequest → Request
  list_activity_types_request : ListActivityTypesRequest → Request
  describe_activity_type_request : DescribeActivityTypeRequest → Request
  describe_domain_request : DescribeDomainRequest → Request
  describe_workflow_type_request : DescribeWorkflowTypeRequest → Request
  describe_workflow_execution_request : DescribeWorkflowExecutionRequest → Request
  list_open_workflow_executions_request : ListOpenWorkflowExecutionsRequest → Request
  list_closed_workflow_executions_request : ListClosedWorkflowExecutionsRequest → Request
  get_workflow_execution_history_request : GetWorkflowExecutionHistoryRequest → Request
  list_domains_request : ListDomainsRequest → Request
  put_record_request : PutRecordRequest → Request
  get_records_request : GetRecordsRequest → Request
  create_stream : CreateStream → Request
  describe_stream_request : DescribeStreamRequest → Request
  get_shard_iterator_request : GetShardIteratorRequest → Request

pub record Json : Type 0 where
  pub encode : Request → Attempt String
  pub error_response : String → Attempt ErrorResponse
  pub start_workflow_response : String → Attempt StartWorkflowResponse
  pub poll_for_decision_task_response : String → Attempt PollForDecisionTaskResponse
  pub poll_for_activity_task_response : String → Attempt PollForActivityTaskResponse
  pub record_activity_task_heartbeat_response : String → Attempt RecordActivityTaskHeartbeatResponse
  pub count_response : String → Attempt CountResponse
  pub list_workflow_types_response : String → Attempt ListWorkflowTypesResponse
  pub list_activity_types_response : String → Attempt ListActivityTypesResponse
  pub describe_activity_type_response : String → Attempt DescribeActivityTypeResponse
  pub describe_domain_response : String → Attempt DescribeDomainResponse
  pub describe_workflow_type_response : String → Attempt DescribeWorkflowTypeResponse
  pub describe_workflow_execution_response : String → Attempt DescribeWorkflowExecutionResponse
  pub list_open_workflow_executions_response : String → Attempt ListOpenWorkflowExecutionsResponse
  pub list_closed_workflow_executions_response :
      String → Attempt ListClosedWorkflowExecutionsResponse
  pub get_workflow_execution_history_response : String → Attempt GetWorkflowExecutionHistoryResponse
  pub list_domains_response : String → Attempt ListDomainsResponse
  pub put_record_response : String → Attempt PutRecordResponse
  pub get_records_response : String → Attempt GetRecordsResponse
  pub describe_stream_response : String → Attempt DescribeStreamResponse
  pub get_shard_iterator_response : String → Attempt GetShardIteratorResponse
