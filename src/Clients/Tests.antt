-- ===== src/Clients/Tests.antt =====
-- Exchanges with the sample service, one call and one migration at a time.
use swf4go.Prelude.{String, ◌≡◌, refl, none, some, [], ◌∷◌, arith}
use swf4go.Prelude.Map.{insert}
use swf4go.Go.{response, of_error, returns, panics, of_value, Attempt}
use swf4go.Protocol.ErrorResponse.{ErrorResponse}
use swf4go.Migrators.{migrate}
use swf4go.Clients.Json.{Request}
use swf4go.Clients.Http.{new_request, set_header}
use swf4go.Clients.Exchange.{
  must_getenv, dumped, prepared, executed, prepare_and_execute_request, refusal, without_response,
  with_response, client_for, swf_req_no_response, swf_req_with_response,
}
use swf4go.Clients.Methods.{workflow_client, workflow_admin, workflow_info}
use swf4go.Clients.Parts.{migration_client}
use swf4go.Clients.Exchanged.{Exchanged}
use swf4go.Clients.Exchanged.Operations.{requests-Exchanged, workflow_client-polling}
use swf4go.Clients.Migration.{SwfAnswers, KinesisAnswers, IsReachable, migrate-client}
use swf4go.Clients.Samples.{outside, unknown, json, answering, client, one_domain, posted}

-- a missing and a present environment variable
missing_key : must_getenv (λ key. "") "AWS_KEY" ≡ panics (of_value "Missing key AWS_KEY")
missing_key = refl

present_key : must_getenv (λ key. "k") "AWS_KEY" ≡ returns "k"
present_key = refl

deprecated :
    (workflow_client outside json (client 200)).workflow_admin_client.deprecate_domain
      (record { name = "old" })
      []
    ≡ (none, posted "SimpleWorkflowService.DeprecateDomain" ∷ [])
unfolding workflow_client workflow_admin swf_req_no_response prepare_and_execute_request executed
    prepared dumped new_request set_header insert without_response
deprecated = refl

requests-Exchanged_example :
    Exchanged outside json
      (client 400)
      (λ _. none)
      some
      (answering 400)
      "swf"
      "https://swf.us-east-1.amazonaws.com"
      "SimpleWorkflowService.DeprecateDomain"
      "application/x-amz-json-1.0"
      (Request.deprecate_domain (record { name = "old" }))
      []
      (some (response unknown))
      (posted "SimpleWorkflowService.DeprecateDomain" ∷ [])
unfolding swf_req_no_response prepare_and_execute_request executed prepared dumped new_request
    set_header insert without_response refusal
requests-Exchanged_example =
    (requests-Exchanged outside json (client 400) json.put_record_response "DeprecateDomain"
      (Request.deprecate_domain (record { name = "old" })) []).0

workflow_client-polling_example :
    let polled = record (client 200) { polling_client = answering 400 } in
    (workflow_client outside json polled).workflow_worker_client
    ≡ (workflow_client outside json (client 200)).workflow_worker_client
workflow_client-polling_example =
    (workflow_client-polling outside json (client 200) (answering 400) (answering 500)).0

-- Every operation is refused, in a body that can be read.
swf_refused {κ} :
    {A : Type κ} (decode : String → Attempt A) (operation : String) (request : Request)
    → SwfAnswers outside json (client 400) decode operation request
unfolding prepared dumped new_request set_header insert
swf_refused decode operation request w = record {
  req = _;
  is_prepared = refl;
  resp = record { status_code = 400; body = "{}" };
  sent = refl;
  is_dumped = refl;
  readable = λ e. absurd (omega (arith, e));
  refusal_readable = λ e. (unknown, refl);
}

kinesis_refused {κ} :
    {A : Type κ} (decode : String → Attempt A) (operation : String) (request : Request)
    → KinesisAnswers outside json (client 400) decode operation request
unfolding prepared dumped new_request set_header insert
kinesis_refused decode operation request w = record {
  req = _;
  is_prepared = refl;
  resp = record { status_code = 400; body = "{}" };
  sent = refl;
  is_dumped = refl;
  readable = λ e. absurd (omega (arith, e));
  refusal_readable = λ e. (unknown, refl);
}

refusing : IsReachable outside json (client 400)
refusing = record {
  register_activity_type = λ d. swf_refused _ "RegisterActivityType" _;
  deprecate_activity_type = λ d. swf_refused _ "DeprecateActivityType" _;
  register_workflow_type = λ d. swf_refused _ "RegisterWorkflowType" _;
  deprecate_workflow_type = λ d. swf_refused _ "DeprecateWorkflowType" _;
  register_domain = λ d. swf_refused _ "RegisterDomain" _;
  deprecate_domain = λ d. swf_refused _ "DeprecateDomain" _;
  describe_activity_type = λ d. swf_refused _ "DescribeActivityType" _;
  describe_domain = λ d. swf_refused _ "DescribeDomain" _;
  describe_workflow_type = λ d. swf_refused _ "DescribeWorkflowType" _;
  create_stream = λ d. kinesis_refused _ "CreateStream" _;
  describe_stream = λ d. kinesis_refused _ "DescribeStream" _;
}

refused_migration :
    migrate (migration_client (workflow_client outside json (client 400))) one_domain []
    ≡ panics (of_error (response unknown))
unfolding migrate workflow_client workflow_admin workflow_info swf_req_no_response
    swf_req_with_response client_for prepare_and_execute_request executed prepared dumped
    new_request set_header insert without_response with_response refusal
refused_migration = refl

migrate-client_example : (r : ErrorResponse) × (of_error (response unknown) ≡ of_error (response r))
migrate-client_example =
    migrate-client outside json (client 400) refusing one_domain [] (of_error (response unknown))
      refused_migration
