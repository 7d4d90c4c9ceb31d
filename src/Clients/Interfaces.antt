-- ===== src/Clients/Interfaces.antt =====
-- The interfaces of the clients (clients.go, lines 16 to 88). `W` is the state of the world outside, which an
-- operation may change. Of a response and an error, the error counts, so an operation with a
-- response returns one of the two.
use swf4go.Prelude.{Option}
use swf4go.Go.{GoError, Result}
use swf4go.Protocol.Info.{
  CountClosedWorkflowExecutionsRequest, CountOpenWorkflowExecutionsRequest,
  CountPendingActivityTasksRequest, CountPendingDecisionTasksRequest, CountResponse,
  DescribeActivityTypeRequest, DescribeActivityTypeResponse, DescribeDomainRequest,
  DescribeDomainResponse, DescribeWorkflowExecutionRequest, DescribeWorkflowExecutionResponse,
  DescribeWorkflowTypeRequest, DescribeWorkflowTypeResponse, GetWorkflowExecutionHistoryRequest,
  GetWorkflowExecutionHistoryResponse, ListActivityTypesRequest, ListActivityTypesResponse,
  ListClosedWorkflowExecutionsRequest, ListClosedWorkflowExecutionsResponse, ListDomainsRequest,
  ListDomainsResponse, ListOpenWorkflowExecutionsRequest, ListOpenWorkflowExecutionsResponse,
}
use swf4go.Protocol.Kinesis.{
  CreateStream, DescribeStreamRequest, DescribeStreamResponse, GetRecordsRequest,
  GetRecordsResponse, GetShardIteratorRequest, GetShardIteratorResponse, PutRecordRequest,
  PutRecordResponse,
}
use swf4go.Protocol.Admin.{
  DeprecateActivityType, DeprecateDomain, DeprecateWorkflowType, RegisterActivityType,
  RegisterDomain, RegisterWorkflowType,
}
use swf4go.Protocol.Workers.{
  ListWorkflowTypesRequest, ListWorkflowTypesResponse, PollForActivityTaskRequest,
  PollForActivityTaskResponse, PollForDecisionTaskRequest, PollForDecisionTaskResponse,
  RecordActivityTaskHeartbeatRequest, RecordActivityTaskHeartbeatResponse,
  RequestCancelWorkflowExecution, RespondActivityTaskCanceledRequest,
  RespondActivityTaskCompletedRequest, RespondActivityTaskFailedRequest,
  RespondDecisionTaskCompletedRequest, SignalWorkflowRequest, StartWorkflowRequest,
  StartWorkflowResponse, TerminateWorkflowExecution,
}

pub record WorkflowWorkerClient {ℓ} (W : Type ℓ) : Type ℓ where
  pub start_workflow : StartWorkflowRequest → W → Result StartWorkflowResponse × W
  pub signal_workflow : SignalWorkflowRequest → W → Option GoError × W
  pub request_cancel_workflow_execution : RequestCancelWorkflowExecution → W → Option GoError × W
  pub terminate_workflow_execution : TerminateWorkflowExecution → W → Option GoError × W

pub record DecisionWorkerClient {ℓ} (W : Type ℓ) : Type ℓ where
  pub poll_for_decision_task :
      PollForDecisionTaskRequest → W → Result PollForDecisionTaskResponse × W
  pub respond_decision_task_completed : RespondDecisionTaskCompletedRequest → W → Option GoError × W

pub record ActivityWorkerClient {ℓ} (W : Type ℓ) : Type ℓ where
  pub poll_for_activity_task :
      PollForActivityTaskRequest → W → Result PollForActivityTaskResponse × W
  pub record_activity_task_heartbeat :
      RecordActivityTaskHeartbeatRequest → W → Result RecordActivityTaskHeartbeatResponse × W
  pub respond_activity_task_completed : RespondActivityTaskCompletedRequest → W → Option GoError × W
  pub respond_activity_task_failed : RespondActivityTaskFailedRequest → W → Option GoError × W
  pub respond_activity_task_canceled : RespondActivityTaskCanceledRequest → W → Option GoError × W

pub record WorkflowAdminClient {ℓ} (W : Type ℓ) : Type ℓ where
  pub register_activity_type : RegisterActivityType → W → Option GoError × W
  pub deprecate_activity_type : DeprecateActivityType → W → Option GoError × W
  pub register_workflow_type : RegisterWorkflowType → W → Option GoError × W
  pub deprecate_workflow_type : DeprecateWorkflowType → W → Option GoError × W
  pub register_domain : RegisterDomain → W → Option GoError × W
  pub deprecate_domain : DeprecateDomain → W → Option GoError × W

pub record WorkflowInfoClient {ℓ} (W : Type ℓ) : Type ℓ where
  pub count_closed_workflow_executions :
      CountClosedWorkflowExecutionsRequest → W → Result CountResponse × W
  pub count_open_workflow_executions :
      CountOpenWorkflowExecutionsRequest → W → Result CountResponse × W
  pub count_pending_activity_tasks : CountPendingActivityTasksRequest → W → Result CountResponse × W
  pub count_pending_decision_tasks : CountPendingDecisionTasksRequest → W → Result CountResponse × W
  pub list_workflow_types : ListWorkflowTypesRequest → W → Result ListWorkflowTypesResponse × W
  pub list_activity_types : ListActivityTypesRequest → W → Result ListActivityTypesResponse × W
  pub describe_activity_type :
      DescribeActivityTypeRequest → W → Result DescribeActivityTypeResponse × W
  pub describe_domain : DescribeDomainRequest → W → Result DescribeDomainResponse × W
  pub describe_workflow_type :
      DescribeWorkflowTypeRequest → W → Result DescribeWorkflowTypeResponse × W
  pub describe_workflow_execution :
      DescribeWorkflowExecutionRequest → W → Result DescribeWorkflowExecutionResponse × W
  pub list_open_workflow_executions :
      ListOpenWorkflowExecutionsRequest → W → Result ListOpenWorkflowExecutionsResponse × W
  pub list_closed_workflow_executions :
      ListClosedWorkflowExecutionsRequest → W → Result ListClosedWorkflowExecutionsResponse × W
  pub get_workflow_execution_history :
      GetWorkflowExecutionHistoryRequest → W → Result GetWorkflowExecutionHistoryResponse × W
  pub list_domains : ListDomainsRequest → W → Result ListDomainsResponse × W

pub record KinesisClient {ℓ} (W : Type ℓ) : Type ℓ where
  pub put_record : PutRecordRequest → W → Result PutRecordResponse × W
  pub get_records : GetRecordsRequest → W → Result GetRecordsResponse × W
  pub create_stream : CreateStream → W → Option GoError × W
  pub describe_stream : DescribeStreamRequest → W → Result DescribeStreamResponse × W
  pub get_shard_iterator : GetShardIteratorRequest → W → Result GetShardIteratorResponse × W

-- The embedded interfaces, by their names.
pub record WorkflowClient {ℓ} (W : Type ℓ) : Type ℓ where
  pub activity_worker_client : ActivityWorkerClient W
  pub decision_worker_client : DecisionWorkerClient W
  pub kinesis_client : KinesisClient W
  pub workflow_admin_client : WorkflowAdminClient W
  pub workflow_info_client : WorkflowInfoClient W
  pub workflow_worker_client : WorkflowWorkerClient W
