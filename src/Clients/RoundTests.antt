-- ===== src/Clients/RoundTests.antt =====
-- The handling of a decision task, and a whole round of polling, over the sample service.
use swf4go.Prelude.{◌≡◌, refl, ◌⊎◌, Option, none, List, []}
use swf4go.Prelude.Map.{lookup, insert}
use swf4go.Go.{GoError, Result, returns, done, returned, err, ok}
use swf4go.Protocol.Decision.{Decision}
use swf4go.Protocol.Kinesis.{PutRecordResponse}
use swf4go.Protocol.Workers.{PollForDecisionTaskResponse}
use swf4go.Fsm.Serialization.{SerializedState}
use swf4go.Fsm.Tick.{tick}
use swf4go.Fsm.Replication.{default_kinesis_replicator, handle_decision_task}
use swf4go.Fsm.Replication.Put.{Put}
use swf4go.Fsm.Samples.Codec.{put_state}
use swf4go.Fsm.Samples.{numbers}
use swf4go.Clients.Json.{Request}
use swf4go.Clients.Http.{new_request, set_header}
use swf4go.Clients.Exchange.{
  dumped, prepared, executed, prepare_and_execute_request, without_response, with_response,
  client_for, swf_req_no_response, swf_req_with_response, kinesis_req_with_response,
}
use swf4go.Clients.Methods.{workflow_client, kinesis, decision_worker}
use swf4go.Fsm.Start.{started_round}
use swf4go.Clients.Polling.{IsIdle, poll_request, started_round-Exchanged}
use swf4go.Clients.Parts.{fsm_client}
use swf4go.Clients.Exchanged.{Exchanged}
use swf4go.Clients.DecisionTask.{RespondsTo, Replicates, handle_decision_task-Exchanged}
use swf4go.Clients.Samples.{
  Log, outside, json, answering, client, streaming, two_events, both, json_with_task,
  streaming_started, all_three,
}

handled_over_http :
    handle_decision_task streaming
      (fsm_client (workflow_client outside json (client 200)))
      default_kinesis_replicator
      two_events
      []
    ≡ returns both
unfolding handle_decision_task tick numbers put_state lookup workflow_client decision_worker kinesis
    swf_req_no_response kinesis_req_with_response prepare_and_execute_request executed prepared
    dumped new_request set_header insert without_response with_response
handled_over_http = refl

handle_decision_task-Exchanged_example :
    (ds : List Decision) × (new : Option SerializedState) × (tick streaming two_events
      ≡ returns (ds, new))
    × (answer : Option GoError) × (between : Log) × RespondsTo outside json
        (client 200)
        streaming
        two_events
        ds
        new
        []
        answer
        between
    × ((both ≡ between)
        ⊎ ((answer ≡ none)
            × (put : Put streaming
                (fsm_client (workflow_client outside json (client 200)))
                default_kinesis_replicator
                two_events
                new
                between
                both)
            × (stored : Result PutRecordResponse) × Replicates outside json
                (client 200)
                streaming
                two_events
                put.text
                between
                stored
                both))
handle_decision_task-Exchanged_example =
    handle_decision_task-Exchanged outside json (client 200) streaming two_events [] both
      handled_over_http

round_over_http :
    let client = workflow_client outside json_with_task (client 200) in
    started_round streaming_started client.decision_worker_client.poll_for_decision_task
      (fsm_client client)
      default_kinesis_replicator
      []
    ≡ returns all_three
unfolding started_round handle_decision_task tick numbers put_state lookup workflow_client
    decision_worker kinesis swf_req_no_response swf_req_with_response client_for
    kinesis_req_with_response prepare_and_execute_request executed prepared dumped new_request
    set_header insert without_response with_response
round_over_http = refl

started_round-Exchanged_example :
    (answer : Result PollForDecisionTaskResponse) × (between : Log) × Exchanged outside
      json_with_task
      (client 200)
      (λ resp. returned (done two_events))
      err
      (answering 200)
      "swf"
      "https://swf.us-east-1.amazonaws.com"
      "SimpleWorkflowService.PollForDecisionTask"
      "application/x-amz-json-1.0"
      (Request.poll_for_decision_task_request
        (poll_request outside json_with_task (client 200) streaming_started))
      []
      answer
      between
    × ((IsIdle answer × (all_three ≡ between))
        ⊎ ((task : PollForDecisionTaskResponse) × (answer ≡ ok task)
            × (handle_decision_task streaming
                  (fsm_client (workflow_client outside json_with_task (client 200)))
                  default_kinesis_replicator
                  task
                  between
                ≡ returns all_three)))
started_round-Exchanged_example =
    started_round-Exchanged outside json_with_task (client 200) streaming_started [] all_three
      round_over_http
