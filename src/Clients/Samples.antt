-- ===== src/Clients/Samples.antt =====
-- A sample service that writes down what it is sent, and what it is sent.
use swf4go.Prelude.{String, List, [], ◌∷◌, ◌++◌, ℕ}
use swf4go.Go.{done, failed}
use swf4go.Protocol.ErrorResponse.{ErrorResponse, error_type_unknown_resource_fault}
use swf4go.Protocol.Workers.{PollForDecisionTaskResponse}
use swf4go.Fsm.Machine.{Fsm}
use swf4go.Fsm.Samples.Codec.{put_state}
use swf4go.Fsm.Samples.{counter, saved, started, signaled, task}
use swf4go.Migrators.{TypesMigrator, new_types_migrator}
use swf4go.Clients.Region.{us_east_1}
use swf4go.Clients.Json.{Json}
use swf4go.Clients.Http.{HttpRequest, HttpClient, Outside}
use swf4go.Clients.Exchange.{Client, new_client}
use swf4go.Fsm.Start.{Started}

abbrev pub Log : Type 0
Log = List HttpRequest

abbrev pub outside : Outside Log
outside = record {
  date = λ w. "Thu, 01 Jan 2015 00:00:00 GMT";
  parse_url = done;
  sign =
      λ service keys r. done (record r { header = ("Authorization", keys.access_key) ∷ r.header });
  dump_request_out = λ r. done r.body;
  dump_response = λ r. done r.body;
}

abbrev pub unknown : ErrorResponse
unknown = record { status_code = 0; type = error_type_unknown_resource_fault; message = "unknown" }

abbrev pub json : Json
json = record {
  encode = λ request. done "{}";
  error_response = λ b. done unknown;
  list_closed_workflow_executions_response = λ b. failed "unexpected end of JSON input";
  put_record_response = λ b. done (record { sequence_number = b; shard_id = "" });
  start_workflow_response = λ b. failed "unexpected end of JSON input";
  poll_for_decision_task_response = λ b. failed "unexpected end of JSON input";
  poll_for_activity_task_response = λ b. failed "unexpected end of JSON input";
  record_activity_task_heartbeat_response = λ b. failed "unexpected end of JSON input";
  count_response = λ b. failed "unexpected end of JSON input";
  list_workflow_types_response = λ b. failed "unexpected end of JSON input";
  list_activity_types_response = λ b. failed "unexpected end of JSON input";
  describe_activity_type_response = λ b. failed "unexpected end of JSON input";
  describe_domain_response = λ b. failed "unexpected end of JSON input";
  describe_workflow_type_response = λ b. failed "unexpected end of JSON input";
  describe_workflow_execution_response = λ b. failed "unexpected end of JSON input";
  list_open_workflow_executions_response = λ b. failed "unexpected end of JSON input";
  get_workflow_execution_history_response = λ b. failed "unexpected end of JSON input";
  list_domains_response = λ b. failed "unexpected end of JSON input";
  get_records_response = λ b. failed "unexpected end of JSON input";
  describe_stream_response = λ b. failed "unexpected end of JSON input";
  get_shard_iterator_response = λ b. failed "unexpected end of JSON input";
}

-- A service that answers everything with one status.
abbrev pub answering : ℕ → HttpClient Log
answering status = record {
  send = λ r w. (done (record { status_code = status; body = "{}" }), w ++ r ∷ []);
}

abbrev pub client : ℕ → Client Log
client status = new_client (answering status) "key" "secret" us_east_1

abbrev pub one_domain : TypesMigrator
one_domain =
    new_types_migrator
      (record { description = ""; name = "new"; workflow_execution_retention_period_in_days = "1" }
        ∷ [])
      [] [] [] [] []

abbrev pub posted : String → HttpRequest
posted target = record {
  method = "POST";
  url = "https://swf.us-east-1.amazonaws.com";
  header =
      ("Authorization", "key")
      ∷ ("Date", "Thu, 01 Jan 2015 00:00:00 GMT")
      ∷ ("X-Amz-Target", target)
      ∷ ("Content-Type", "application/x-amz-json-1.0")
      ∷ ("Connection", "Keep-Alive")
      ∷ [];
  body = "{}";
}

abbrev pub streaming : Fsm ℕ
streaming = record counter { kinesis_stream = "states" }

abbrev pub two_events : PollForDecisionTaskResponse
unfolding put_state
two_events = task (signaled 4 "a" ∷ started (put_state saved) ∷ [])

abbrev pub put_request : HttpRequest
put_request = record {
  method = "POST";
  url = "https://kinesis.us-east-1.amazonaws.com";
  header =
      ("Authorization", "key")
      ∷ ("Date", "Thu, 01 Jan 2015 00:00:00 GMT")
      ∷ ("X-Amz-Target", "Kinesis_20131202.PutRecord")
      ∷ ("Content-Type", "application/x-amz-json-1.1")
      ∷ ("Connection", "Keep-Alive")
      ∷ [];
  body = "{}";
}

abbrev pub both : Log
both = posted "SimpleWorkflowService.RespondDecisionTaskCompleted" ∷ put_request ∷ []

abbrev pub json_with_task : Json
json_with_task = record json { poll_for_decision_task_response = λ b. done two_events }

abbrev pub streaming_started : Started ℕ
streaming_started = record {
  fsm = streaming;
  poller = record { identity = ""; domain = "test"; task_list = "counters" };
  poller_name = "counter-poller";
}

abbrev pub all_three : Log
all_three = posted "SimpleWorkflowService.PollForDecisionTask" ∷ both
