-- ===== src/Clients/Methods.antt =====
-- The operations of Client (clients.go, lines 167 to 387), interface by interface. Each has a name at the
-- service, and a request and a response of its own.
use swf4go.Clients.Json.{Json, Request}
use swf4go.Clients.Http.{Outside}
use swf4go.Clients.Exchange.{
  Client, swf_req_no_response, swf_req_with_response, kinesis_req_no_response,
  kinesis_req_with_response,
}
use swf4go.Clients.Interfaces.{
  WorkflowClient, WorkflowWorkerClient, DecisionWorkerClient, ActivityWorkerClient,
  WorkflowAdminClient, WorkflowInfoClient, KinesisClient,
}

module _ {ℓ} {W : Type ℓ} (outside : Outside W) (json : Json) (c : Client W) where
  unfoldable pub workflow_worker : WorkflowWorkerClient W
  unfolding swf_req_no_response swf_req_with_response
  workflow_worker = record {
    start_workflow = λ request.
        swf_req_with_response outside json c json.start_workflow_response "StartWorkflowExecution"
          (Request.start_workflow_request request);
    signal_workflow = λ request.
        swf_req_no_response outside json c "SignalWorkflowExecution"
          (Request.signal_workflow_request request);
    request_cancel_workflow_execution = λ request.
        swf_req_no_response outside json c "RequestCancelWorkflowExecution"
          (Request.request_cancel_workflow_execution request);
    terminate_workflow_execution = λ request.
        swf_req_no_response outside json c "TerminateWorkflowExecution"
          (Request.terminate_workflow_execution request);
  }

  unfoldable pub decision_worker : DecisionWorkerClient W
  unfolding swf_req_no_response swf_req_with_response
  decision_worker = record {
    poll_for_decision_task = λ request.
        swf_req_with_response outside json c json.poll_for_decision_task_response
          "PollForDecisionTask" (Request.poll_for_decision_task_request request);
    respond_decision_task_completed = λ request.
        swf_req_no_response outside json c "RespondDecisionTaskCompleted"
          (Request.respond_decision_task_completed_request request);
  }

  unfoldable pub activity_worker : ActivityWorkerClient W
  unfolding swf_req_no_response swf_req_with_response
  activity_worker = record {
    poll_for_activity_task = λ request.
        swf_req_with_response outside json c json.poll_for_activity_task_response
          "PollForActivityTask" (Request.poll_for_activity_task_request request);
    record_activity_task_heartbeat = λ request.
        swf_req_with_response outside json c json.record_activity_task_heartbeat_response
          "RecordActivityTaskHeartbeat" (Request.record_activity_task_heartbeat_request request);
    respond_activity_task_completed = λ request.
        swf_req_no_response outside json c "RespondActivityTaskCompleted"
          (Request.respond_activity_task_completed_request request);
    respond_activity_task_failed = λ request.
        swf_req_no_response outside json c "RespondActivityTaskFailed"
          (Request.respond_activity_task_failed_request request);
    respond_activity_task_canceled = λ request.
        swf_req_no_response outside json c "RespondActivityTaskCanceled"
          (Request.respond_activity_task_canceled_request request);
  }

  unfoldable pub workflow_admin : WorkflowAdminClient W
  unfolding swf_req_no_response swf_req_with_response
  workflow_admin = record {
    register_activity_type = λ request.
        swf_req_no_response outside json c "RegisterActivityType"
          (Request.register_activity_type request);
    deprecate_activity_type = λ request.
        swf_req_no_response outside json c "DeprecateActivityType"
          (Request.deprecate_activity_type request);
    register_workflow_type = λ request.
        swf_req_no_response outside json c "RegisterWorkflowType"
          (Request.register_workflow_type request);
    deprecate_workflow_type = λ request.
        swf_req_no_response outside json c "DeprecateWorkflowType"
          (Request.deprecate_workflow_type request);
    register_domain = λ request.
        swf_req_no_response outside json c "RegisterDomain" (Request.register_domain request);
    deprecate_domain = λ request.
        swf_req_no_response outside json c "DeprecateDomain" (Request.deprecate_domain request);
  }

  unfoldable pub workflow_info : WorkflowInfoClient W
  unfolding swf_req_no_response swf_req_with_response
  workflow_info = record {
    count_closed_workflow_executions = λ request.
        swf_req_with_response outside json c json.count_response "CountClosedWorkflowExecutions"
          (Request.count_closed_workflow_executions_request request);
    count_open_workflow_executions = λ request.
        swf_req_with_response outside json c json.count_response "CountOpenWorkflowExecutions"
          (Request.count_open_workflow_executions_request request);
    count_pending_activity_tasks = λ request.
        swf_req_with_response outside json c json.count_response "CountPendingActivityTasks"
          (Request.count_pending_activity_tasks_request request);
    count_pending_decision_tasks = λ request.
        swf_req_with_response outside json c json.count_response "CountPendingDecisionTasks"
          (Request.count_pending_decision_tasks_request request);
    list_workflow_types = λ request.
        swf_req_with_response outside json c json.list_workflow_types_response "ListWorkflowTypes"
          (Request.list_workflow_types_request request);
    list_activity_types = λ request.
        swf_req_with_response outside json c json.list_activity_types_response "ListActivityTypes"
          (Request.list_activity_types_request request);
    describe_activity_type = λ request.
        swf_req_with_response outside json c json.describe_activity_type_response
          "DescribeActivityType" (Request.describe_activity_type_request request);
    describe_domain = λ request.
        swf_req_with_response outside json c json.describe_domain_response "DescribeDomain"
          (Request.describe_domain_request request);
    describe_workflow_type = λ request.
        swf_req_with_response outside json c json.describe_workflow_type_response
          "DescribeWorkflowType" (Request.describe_workflow_type_request request);
    describe_workflow_execution = λ request.
        swf_req_with_response outside json c json.describe_workflow_execution_response
          "DescribeWorkflowExecution" (Request.describe_workflow_execution_request request);
    list_open_workflow_executions = λ request.
        swf_req_with_response outside json c json.list_open_workflow_executions_response
          "ListOpenWorkflowExecutions" (Request.list_open_workflow_executions_request request);
    list_closed_workflow_executions = λ request.
        swf_req_with_response outside json c json.list_closed_workflow_executions_response
          "ListClosedWorkflowExecutions" (Request.list_closed_workflow_executions_request request);
    get_workflow_execution_history = λ request.
        swf_req_with_response outside json c json.get_workflow_execution_history_response
          "GetWorkflowExecutionHistory" (Request.get_workflow_execution_history_request request);
    list_domains = λ request.
        swf_req_with_response outside json c json.list_domains_response "ListDomains"
          (Request.list_domains_request request);
  }

  unfoldable pub kinesis : KinesisClient W
  unfolding kinesis_req_no_response kinesis_req_with_response
  kinesis = record {
    put_record = λ request.
        kinesis_req_with_response outside json c json.put_record_response "PutRecord"
          (Request.put_record_request request);
    get_records = λ request.
        kinesis_req_with_response outside json c json.get_records_response "GetRecords"
          (Request.get_records_request request);
    create_stream = λ request.
        kinesis_req_no_response outside json c "CreateStream" (Request.create_stream request);
    describe_stream = λ request.
        kinesis_req_with_response outside json c json.describe_stream_response "DescribeStream"
          (Request.describe_stream_request request);
    get_shard_iterator = λ request.
        kinesis_req_with_response outside json c json.get_shard_iterator_response "GetShardIterator"
          (Request.get_shard_iterator_request request);
  }

  unfoldable pub workflow_client : WorkflowClient W
  unfolding workflow_worker decision_worker activity_worker workflow_admin workflow_info kinesis
  workflow_client = record {
    activity_worker_client = activity_worker;
    decision_worker_client = decision_worker;
    kinesis_client = kinesis;
    workflow_admin_client = workflow_admin;
    workflow_info_client = workflow_info;
    workflow_worker_client = workflow_worker;
  }
