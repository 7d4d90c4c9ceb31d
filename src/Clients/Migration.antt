-- ===== src/Clients/Migration.antt =====
-- A migration over HTTP: the migrators with Client for their client (types.go, lines 29 to 328, and clients.go, lines
-- 389 to 518).
use swf4go.Prelude.{String, ◌≡◌, ◌≢◌, refl, false, inl, inr, Bool-cases, some, eqb, arith}
use Prim.Native.String.{◌++◌}
use swf4go.Go.{GoError, response, ok, err, Panic, of_error, panics, Attempt, done}
use swf4go.Protocol.ErrorResponse.{ErrorResponse}
use swf4go.Protocol.Admin.{
  DeprecateActivityType, DeprecateWorkflowType, DeprecateDomain, RegisterActivityType,
  RegisterDomain, RegisterWorkflowType,
}
use swf4go.Protocol.Info.{
  DescribeActivityTypeRequest, DescribeDomainRequest, DescribeWorkflowTypeRequest,
}
use swf4go.Protocol.Kinesis.{CreateStream, DescribeStreamRequest}
use swf4go.Migrators.{TypesMigrator, migrate}
use swf4go.Migrators.Ensuring.Refusals.{IsAnswer}
use swf4go.Migrators.Refusals.{AnswersOnly, migrate-PanicsAnswer}
use swf4go.Clients.Json.{Json, Request}
use swf4go.Clients.Http.{HttpRequest, HttpResponse, Outside}
use swf4go.Clients.Exchange.{
  Client, dumped, prepared, executed, prepare_and_execute_request, refusal, without_response,
  with_response, client_for, swf_req_no_response, swf_req_with_response, kinesis_req_no_response,
  kinesis_req_with_response,
}
use swf4go.Clients.Methods.{workflow_admin, workflow_info, kinesis, workflow_client}
use swf4go.Clients.Parts.{migration_client}

module _ {ℓ} {W : Type ℓ} (outside : Outside W) (json : Json) (c : Client W) where
  -- An operation that the service answers: its request can be prepared, the connection brings a response,
  -- and what is read of its body can be read.
  pub record Answered {κ} {A : Type κ} (decode : String → Attempt A)
      (svc url target content_type : String) (request : Request) (w : W) : Type κ where
    pub req : HttpRequest
    pub is_prepared : prepared outside json c svc url target content_type request w ≡ ok req
    pub resp : HttpResponse
    pub sent : (c.http_client.send req w).0 ≡ done resp
    pub is_dumped : dumped outside json c outside.dump_response resp ≡ ok resp
    pub readable : resp.status_code ≡ 200 → (a : A) × (decode resp.body ≡ done a)
    pub refusal_readable :
        resp.status_code ≢ 200 → (r : ErrorResponse) × (json.error_response resp.body ≡ done r)

  module _ {κ} {A : Type κ} (decode : String → Attempt A) (svc url target content_type : String)
      (request : Request) (w : W) (a : Answered decode svc url target content_type request w) where
    executed_as :
        (prepare_and_execute_request outside json c c.http_client svc url target content_type
          request w).0
        ≡ ok a.resp
    unfolding prepare_and_execute_request executed
    executed_as = simp (a.is_prepared, a.sent, a.is_dumped)

    refusal-IsAnswer : eqb a.resp.status_code 200 ≡ false → IsAnswer (refusal outside json c a.resp)
    unfolding refusal
    refusal-IsAnswer other =
        let (r, e) = a.refusal_readable (λ q. ground arith) in (r, rw (refusal, e) refl)

    with_response-IsAnswer :
        (e : GoError)
        → with_response outside json c decode
            (prepare_and_execute_request outside json c c.http_client svc url target content_type
              request w).0
          ≡ err e
        → IsAnswer e
    unfolding with_response
    with_response-IsAnswer e h = elim (Bool-cases (eqb a.resp.status_code 200)) [
      | inl same ↦
          let (x, d) = a.readable (ground arith) in let q = simp (executed_as, same, d) at h in cc
      | inr other ↦
          let (r, d) = refusal-IsAnswer other in let q = simp (executed_as, other) at h in (r, cc)
    ]

    without_response-IsAnswer :
        (e : GoError)
        → without_response outside json c
            (prepare_and_execute_request outside json c c.http_client svc url target content_type
              request w).0
          ≡ some e
        → IsAnswer e
    unfolding without_response
    without_response-IsAnswer e h = elim (Bool-cases (eqb a.resp.status_code 200)) [
      | inl same ↦ let q = simp (executed_as, same) at h in cc
      | inr other ↦
          let (r, d) = refusal-IsAnswer other in let q = simp (executed_as, other) at h in (r, cc)
    ]

  abbrev pub SwfAnswers {κ} : {A : Type κ} → (String → Attempt A) → String → Request → Type (ℓ ⊔ κ)
  SwfAnswers decode operation request =
      (w : W)
      → Answered decode "swf" c.region.swf_endpoint ("SimpleWorkflowService." ++ operation)
          "application/x-amz-json-1.0" request w

  abbrev pub KinesisAnswers {κ} :
      {A : Type κ} → (String → Attempt A) → String → Request → Type (ℓ ⊔ κ)
  KinesisAnswers decode operation request =
      (w : W)
      → Answered decode "kinesis" c.region.kinesis_endpoint ("Kinesis_20131202." ++ operation)
          "application/x-amz-json-1.1" request w

  -- The service answers whatever a migration asks. Of the operations without a response, no body is read
  -- with status 200.
  pub record IsReachable : Type ℓ where
    pub register_activity_type :
        (d : RegisterActivityType)
        → SwfAnswers done "RegisterActivityType" (Request.register_activity_type d)
    pub deprecate_activity_type :
        (d : DeprecateActivityType)
        → SwfAnswers done "DeprecateActivityType" (Request.deprecate_activity_type d)
    pub register_workflow_type :
        (d : RegisterWorkflowType)
        → SwfAnswers done "RegisterWorkflowType" (Request.register_workflow_type d)
    pub deprecate_workflow_type :
        (d : DeprecateWorkflowType)
        → SwfAnswers done "DeprecateWorkflowType" (Request.deprecate_workflow_type d)
    pub register_domain :
        (d : RegisterDomain) → SwfAnswers done "RegisterDomain" (Request.register_domain d)
    pub deprecate_domain :
        (d : DeprecateDomain) → SwfAnswers done "DeprecateDomain" (Request.deprecate_domain d)
    pub describe_activity_type :
        (d : DescribeActivityTypeRequest)
        → SwfAnswers json.describe_activity_type_response "DescribeActivityType"
            (Request.describe_activity_type_request d)
    pub describe_domain :
        (d : DescribeDomainRequest)
        → SwfAnswers json.describe_domain_response "DescribeDomain"
            (Request.describe_domain_request d)
    pub describe_workflow_type :
        (d : DescribeWorkflowTypeRequest)
        → SwfAnswers json.describe_workflow_type_response "DescribeWorkflowType"
            (Request.describe_workflow_type_request d)
    pub create_stream :
        (d : CreateStream) → KinesisAnswers done "CreateStream" (Request.create_stream d)
    pub describe_stream :
        (d : DescribeStreamRequest)
        → KinesisAnswers json.describe_stream_response "DescribeStream"
            (Request.describe_stream_request d)

  client-AnswersOnly : IsReachable → AnswersOnly (migration_client (workflow_client outside json c))
  unfolding workflow_client workflow_admin workflow_info kinesis swf_req_no_response
      swf_req_with_response kinesis_req_no_response kinesis_req_with_response client_for
  client-AnswersOnly a = record {
    register_activity_type =
        λ d w. without_response-IsAnswer done _ _ _ _ _ w (a.register_activity_type d w);
    deprecate_activity_type =
        λ d w. without_response-IsAnswer done _ _ _ _ _ w (a.deprecate_activity_type d w);
    register_workflow_type =
        λ d w. without_response-IsAnswer done _ _ _ _ _ w (a.register_workflow_type d w);
    deprecate_workflow_type =
        λ d w. without_response-IsAnswer done _ _ _ _ _ w (a.deprecate_workflow_type d w);
    register_domain = λ d w. without_response-IsAnswer done _ _ _ _ _ w (a.register_domain d w);
    deprecate_domain = λ d w. without_response-IsAnswer done _ _ _ _ _ w (a.deprecate_domain d w);
    describe_activity_type = λ d w.
        with_response-IsAnswer json.describe_activity_type_response _ _ _ _ _ w
          (a.describe_activity_type d w);
    describe_domain = λ d w.
        with_response-IsAnswer json.describe_domain_response _ _ _ _ _ w (a.describe_domain d w);
    describe_workflow_type = λ d w.
        with_response-IsAnswer json.describe_workflow_type_response _ _ _ _ _ w
          (a.describe_workflow_type d w);
    create_stream = λ d w. without_response-IsAnswer done _ _ _ _ _ w (a.create_stream d w);
    describe_stream = λ d w.
        with_response-IsAnswer json.describe_stream_response _ _ _ _ _ w (a.describe_stream d w);
  }

  -- A migration over HTTP, with services that answer every request of it in bodies that can be read,
  -- panics with an answer of a service only, never with a failed type assertion.
  pub migrate-client :
      IsReachable
      → (t : TypesMigrator) (w : W) (p : Panic)
      → migrate (migration_client (workflow_client outside json c)) t w ≡ panics p
      → (r : ErrorResponse) × (p ≡ of_error (response r))
  migrate-client a = migrate-PanicsAnswer _ (client-AnswersOnly a)
