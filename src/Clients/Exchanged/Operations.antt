-- ===== src/Clients/Exchanged/Operations.antt =====
-- What each of the four kinds of operation comes to, and which connection it uses (clients.go, lines 193 to 212 and
-- 389 to 475).
use swf4go.Prelude.{String, ◌≡◌, refl, subst, none, some}
use Prim.Native.String.{◌++◌}
use swf4go.Go.{GoError, Result, ok, err, Attempt, returned}
use swf4go.Clients.Json.{Json, Request}
use swf4go.Clients.Http.{HttpResponse, HttpClient, Outside}
use swf4go.Clients.Exchange.{
  Client, dumped, prepared, executed, refusal, prepare_and_execute_request, without_response,
  with_response, client_for, swf_req_no_response, swf_req_with_response, kinesis_req_no_response,
  kinesis_req_with_response,
}
use swf4go.Clients.Exchanged.{Exchanged, judged, judged-Exchanged}
use swf4go.Clients.Methods.{
  workflow_client, workflow_worker, decision_worker, activity_worker, workflow_admin, workflow_info,
  kinesis,
}

module _ {ℓ} {W : Type ℓ} (outside : Outside W) (json : Json) (c : Client W) where
  without_response-judged :
      (r : Result HttpResponse)
      → judged outside json c (λ _. none) some r ≡ without_response outside json c r
  unfolding without_response
  without_response-judged (ok resp) = refl
  without_response-judged (err e) = refl

  with_response-judged {κ} :
      {A : Type κ} (decode : String → Attempt A) (r : Result HttpResponse)
      → judged outside json c (λ resp. returned (decode resp.body)) err r
        ≡ with_response outside json c decode r
  unfolding with_response
  with_response-judged decode (ok resp) = refl
  with_response-judged decode (err e) = refl

  module _ {κ} {O : Type κ} (read : HttpResponse → O) (fails : GoError → O)
      (answered : Result HttpResponse → O) (client : HttpClient W)
      (svc url target content_type : String) (request : Request) (w : W)
      (same : (r : Result HttpResponse) → judged outside json c read fails r ≡ answered r) where
    answered-Exchanged :
        let answer =
          prepare_and_execute_request outside json c client svc url target content_type request w in
        Exchanged outside json c read fails client svc url target content_type request w
          (answered answer.0)
          answer.1
    answered-Exchanged =
        let answer =
          prepare_and_execute_request outside json c client svc url target content_type request w in
        subst
          (λ o.
            Exchanged outside json c read fails client svc url target content_type request w o
              answer.1)
          (same answer.0)
          (judged-Exchanged outside json c read fails client svc url target content_type request w)

  -- Whatever is asked of either service, with or without a response: at most one request is sent, signed,
  -- to that service's address and for that operation; nothing is sent only if no request could be
  -- prepared; and the result is what the status and the body of the response say, an error that is an
  -- answer of the service exactly for a status other than 200 whose body can be read.
  pub requests-Exchanged {κ} :
      {A : Type κ} (decode : String → Attempt A) (operation : String) (request : Request) (w : W)
      → (let (o, w') = swf_req_no_response outside json c operation request w in
          Exchanged outside json c
            (λ _. none)
            some
            c.http_client
            "swf"
            c.region.swf_endpoint
            ("SimpleWorkflowService." ++ operation)
            "application/x-amz-json-1.0"
            request
            w
            o
            w')
        × (let (o, w') = swf_req_with_response outside json c decode operation request w in
            Exchanged outside json c
              (λ resp. returned (decode resp.body))
              err
              (client_for outside json c operation)
              "swf"
              c.region.swf_endpoint
              ("SimpleWorkflowService." ++ operation)
              "application/x-amz-json-1.0"
              request
              w
              o
              w')
        × (let (o, w') = kinesis_req_no_response outside json c operation request w in
            Exchanged outside json c
              (λ _. none)
              some
              c.http_client
              "kinesis"
              c.region.kinesis_endpoint
              ("Kinesis_20131202." ++ operation)
              "application/x-amz-json-1.1"
              request
              w
              o
              w')
        × (let (o, w') = kinesis_req_with_response outside json c decode operation request w in
            Exchanged outside json c
              (λ resp. returned (decode resp.body))
              err
              c.http_client
              "kinesis"
              c.region.kinesis_endpoint
              ("Kinesis_20131202." ++ operation)
              "application/x-amz-json-1.1"
              request
              w
              o
              w')
  unfolding swf_req_no_response swf_req_with_response kinesis_req_no_response
      kinesis_req_with_response
  requests-Exchanged decode operation request w = (
    answered-Exchanged _ _ _ _ _ _ _ _ _ _ without_response-judged,
    answered-Exchanged _ _ _ _ _ _ _ _ _ _ (with_response-judged decode),
    answered-Exchanged _ _ _ _ _ _ _ _ _ _ without_response-judged,
    answered-Exchanged _ _ _ _ _ _ _ _ _ _ (with_response-judged decode),
  )

  abbrev pub with_polling_client : HttpClient W → Client W
  with_polling_client p = record {
    keys = c.keys;
    http_client = c.http_client;
    polling_client = p;
    region = c.region;
    debug = c.debug;
  }

  abbrev pub with_http_client : HttpClient W → Client W
  with_http_client h = record {
    keys = c.keys;
    http_client = h;
    polling_client = c.polling_client;
    region = c.region;
    debug = c.debug;
  }

  -- The polling connection serves the two polls and nothing else: with another one, every other operation
  -- is the same, and with another connection for the rest, the polls are.
  pub workflow_client-polling :
      (p h : HttpClient W)
      → let polled = workflow_client outside json (with_polling_client p) in
        let other = workflow_client outside json (with_http_client h) in
        let plain = workflow_client outside json c in
        (polled.workflow_worker_client ≡ plain.workflow_worker_client)
        × (polled.workflow_admin_client ≡ plain.workflow_admin_client)
        × (polled.workflow_info_client ≡ plain.workflow_info_client)
        × (polled.kinesis_client ≡ plain.kinesis_client)
        × (polled.decision_worker_client.respond_decision_task_completed
            ≡ plain.decision_worker_client.respond_decision_task_completed)
        × (polled.activity_worker_client.record_activity_task_heartbeat
            ≡ plain.activity_worker_client.record_activity_task_heartbeat)
        × (polled.activity_worker_client.respond_activity_task_completed
            ≡ plain.activity_worker_client.respond_activity_task_completed)
        × (polled.activity_worker_client.respond_activity_task_failed
            ≡ plain.activity_worker_client.respond_activity_task_failed)
        × (polled.activity_worker_client.respond_activity_task_canceled
            ≡ plain.activity_worker_client.respond_activity_task_canceled)
        × (other.decision_worker_client.poll_for_decision_task
            ≡ plain.decision_worker_client.poll_for_decision_task)
        × (other.activity_worker_client.poll_for_activity_task
            ≡ plain.activity_worker_client.poll_for_activity_task)
  unfolding workflow_client workflow_worker workflow_admin workflow_info kinesis decision_worker
      activity_worker swf_req_no_response swf_req_with_response kinesis_req_no_response
      kinesis_req_with_response client_for prepare_and_execute_request executed prepared dumped
      without_response with_response refusal
  workflow_client-polling p h = (refl, refl, refl, refl, refl, refl, refl, refl, refl, refl, refl)
