-- ===== src/Clients/Exchange.antt =====
-- A client and one exchange with the service (clients.go, lines 113 to 165 and 389 to 519). In debug mode the client
-- also dumps what it sends and receives to the log, which can fail.
use swf4go.Prelude.{String, Bool, false, ◌||◌, Option, none, some, ◌==◌, eqb, if◌then◌else◌}
use Prim.Native.String.{◌++◌}
use swf4go.Go.{
  GoError, response, Result, ok, err, Exec, returns, panics, of_value, Attempt, done, failed,
  returned,
}
use swf4go.Clients.Region.{Region}
use swf4go.Clients.Json.{Json, Request}
use swf4go.Clients.Http.{
  HttpRequest, HttpResponse, HttpClient, Keys, Service, Outside, ◌>>=◌, new_request, set_header,
}

pub record Client {ℓ} (W : Type ℓ) : Type ℓ where
  pub keys : Keys
  pub http_client : HttpClient W
  pub polling_client : HttpClient W
  pub region : Region
  pub debug : Bool

unfoldable pub new_client_with_http_and_polling_client {ℓ} :
    {W : Type ℓ} → String → String → Region → HttpClient W → HttpClient W → Client W
new_client_with_http_and_polling_client key secret region client polling_client = record {
  keys = record { access_key = key; secret_key = secret };
  http_client = client;
  polling_client = polling_client;
  region = region;
  debug = false;
}

abbrev pub new_client_with_http_client {ℓ} :
    {W : Type ℓ} → String → String → Region → HttpClient W → Client W
new_client_with_http_client key secret region client = record {
  keys = record { access_key = key; secret_key = secret };
  http_client = client;
  polling_client = client;
  region = region;
  debug = false;
}

-- http.DefaultClient is a parameter.
abbrev pub new_client {ℓ} : {W : Type ℓ} → HttpClient W → String → String → Region → Client W
new_client default_client key secret region = record {
  keys = record { access_key = key; secret_key = secret };
  http_client = default_client;
  polling_client = default_client;
  region = region;
  debug = false;
}

-- MustGetenv, over the environment
abbrev pub must_getenv : (String → String) → String → Exec String
must_getenv getenv key =
    let value = getenv key in
    if value == "" then panics (of_value ("Missing key " ++ key)) else returns value

module _ {ℓ} {W : Type ℓ} (outside : Outside W) (json : Json) (c : Client W) where
  abbrev pub service : String → Service
  service svc = record { name = svc; region = c.region.name }

  abbrev pub sign : String → HttpRequest → Result HttpRequest
  sign svc request = returned (outside.sign (service svc) c.keys request)

  -- In debug mode, the dump of what is sent or received; what it is of goes on.
  unfoldable pub dumped {κ} : {A : Type κ} → (A → Attempt String) → A → Result A
  dumped dump a = if c.debug then (returned (dump a) >>= λ _. ok a) else ok a

  -- The request, up to the sending of it.
  unfoldable pub prepared : String → String → String → String → Request → W → Result HttpRequest
  unfolding new_request set_header dumped
  prepared service_name url target content_type request w = do
    b ← returned (json.encode request)
    req ← new_request outside "POST" url b
    signed ← sign service_name (
        set_header "Connection" "Keep-Alive" (
          set_header "Content-Type" content_type
            (set_header "X-Amz-Target" target (set_header "Date" (outside.date w) req))))
    dumped outside.dump_request_out signed

  unfoldable pub executed : HttpClient W → Result HttpRequest → W → Result HttpResponse × W
  unfolding dumped
  executed client (err e) w = (err e, w)
  executed client (ok req) w =
      let answer = client.send req w in
      (returned answer.0 >>= dumped outside.dump_response, answer.1)

  unfoldable pub prepare_and_execute_request :
      HttpClient W → String → String → String → String → Request → W → Result HttpResponse × W
  unfolding prepared executed
  prepare_and_execute_request client service_name url target content_type request w =
      executed client (prepared service_name url target content_type request w) w

  -- The response to a status other than 200.
  unfoldable pub refusal : HttpResponse → GoError
  refusal resp = elim (json.error_response resp.body) [
    | done r ↦ response r
    | failed t ↦ GoError.text t
  ]

  unfoldable pub without_response : Result HttpResponse → Option GoError
  unfolding refusal
  without_response (err e) = some e
  without_response (ok resp) = if eqb resp.status_code 200 then none else some (refusal resp)

  unfoldable pub with_response {κ} :
      {A : Type κ} → (String → Attempt A) → Result HttpResponse → Result A
  unfolding refusal
  with_response decode (err e) = err e
  with_response decode (ok resp) =
      if eqb resp.status_code 200 then returned (decode resp.body) else err (refusal resp)

  unfoldable pub client_for : String → HttpClient W
  client_for operation =
      if operation == "PollForDecisionTask" || operation == "PollForActivityTask"
      then c.polling_client
      else c.http_client

  unfoldable pub swf_req_no_response : String → Request → W → Option GoError × W
  unfolding prepare_and_execute_request without_response
  swf_req_no_response operation request w =
      let answer =
        prepare_and_execute_request c.http_client "swf" c.region.swf_endpoint
          ("SimpleWorkflowService." ++ operation) "application/x-amz-json-1.0" request w in
      (without_response answer.0, answer.1)

  unfoldable pub swf_req_with_response {κ} :
      {A : Type κ} → (String → Attempt A) → String → Request → W → Result A × W
  unfolding prepare_and_execute_request with_response client_for
  swf_req_with_response decode operation request w =
      let answer =
        prepare_and_execute_request (client_for operation) "swf" c.region.swf_endpoint
          ("SimpleWorkflowService." ++ operation) "application/x-amz-json-1.0" request w in
      (with_response decode answer.0, answer.1)

  unfoldable pub kinesis_req_no_response : String → Request → W → Option GoError × W
  unfolding prepare_and_execute_request without_response
  kinesis_req_no_response operation request w =
      let answer =
        prepare_and_execute_request c.http_client "kinesis" c.region.kinesis_endpoint
          ("Kinesis_20131202." ++ operation) "application/x-amz-json-1.1" request w in
      (without_response answer.0, answer.1)

  unfoldable pub kinesis_req_with_response {κ} :
      {A : Type κ} → (String → Attempt A) → String → Request → W → Result A × W
  unfolding prepare_and_execute_request with_response
  kinesis_req_with_response decode operation request w =
      let answer =
        prepare_and_execute_request c.http_client "kinesis" c.region.kinesis_endpoint
          ("Kinesis_20131202." ++ operation) "application/x-amz-json-1.1" request w in
      (with_response decode answer.0, answer.1)
