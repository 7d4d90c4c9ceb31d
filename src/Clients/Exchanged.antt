-- ===== src/Clients/Exchanged.antt =====
-- What one exchange with the service comes to (clients.go, lines 389 to 518).
pub mod Operations
use swf4go.Prelude.{
  ℕ, String, true, false, ◌≡◌, ◌≢◌, refl, sym, ap, ◌∙◌, ◌⊎◌, inl, inr, Option, none, some, ◌==◌,
  eqb, Bool-cases, [], if◌then◌else◌, arith,
}
use swf4go.Prelude.Map.{lookup, insert}
use Prim.Native.String.{◌++◌}
use swf4go.Go.{
  GoError, response, text, Result, ok, err, ok-injective, Attempt, done, failed, returned,
  Attempt-cases,
}
use swf4go.Protocol.ErrorResponse.{ErrorResponse}
use swf4go.Clients.Json.{Json, Request}
use swf4go.Clients.Http.{
  HttpRequest, HttpResponse, HttpClient, Outside, ◌>>=◌, new_request, set_header,
}
use swf4go.Clients.Exchange.{
  Client, service, sign, dumped, prepared, executed, prepare_and_execute_request, refusal,
  without_response, with_response, client_for, swf_req_no_response, swf_req_with_response,
  kinesis_req_no_response, kinesis_req_with_response,
}
use swf4go.Clients.Posted.{IsLocal, Posted, dumped_cases, prepared-Posted, prepared-IsLocal}

Result-cases {ℓ} :
    {A : Type ℓ} (a : Result A) → ((x : A) × (a ≡ ok x)) ⊎ ((e : GoError) × (a ≡ err e))
Result-cases (ok x) = inl (x, refl)
Result-cases (err e) = inr (e, refl)

module _ {ℓ} {W : Type ℓ} (outside : Outside W) (json : Json) (c : Client W) where
  -- A response as both kinds of operation judge it.
  abbrev pub judged {κ} :
      {O : Type κ} → (HttpResponse → O) → (GoError → O) → Result HttpResponse → O
  judged read fails (err e) = fails e
  judged read fails (ok resp) =
      if eqb resp.status_code 200 then read resp else fails (refusal outside json c resp)

  module _ {κ} {O : Type κ} (read : HttpResponse → O) (fails : GoError → O) (client : HttpClient W)
      (svc url target content_type : String) (request : Request) (w : W) where
    -- What comes of an exchange. Nothing was sent, or one request was, once, and what it returned counts:
    -- `read` is how a response with status 200 is read, and `fails` is an error.
    pub data Exchanged : O → W → Type (ℓ ⊔ κ) where
      unsent :
          {t : String}
          → prepared outside json c svc url target content_type request w ≡ err (text t)
          → Exchanged (fails (text t)) w
      broken :
          {req : HttpRequest} {t : String} {w' : W}
          → Posted outside json c svc url target content_type request w req
          → client.send req w ≡ (failed t, w')
          → Exchanged (fails (text t)) w'
      undumped :
          {req : HttpRequest} {resp : HttpResponse} {t : String} {w' : W}
          → Posted outside json c svc url target content_type request w req
          → client.send req w ≡ (done resp, w')
          → c.debug ≡ true
          → outside.dump_response resp ≡ failed t
          → Exchanged (fails (text t)) w'
      accepted :
          {req : HttpRequest} {resp : HttpResponse} {w' : W}
          → Posted outside json c svc url target content_type request w req
          → client.send req w ≡ (done resp, w')
          → resp.status_code ≡ 200
          → Exchanged (read resp) w'
      refused :
          {req : HttpRequest} {resp : HttpResponse} {r : ErrorResponse} {w' : W}
          → Posted outside json c svc url target content_type request w req
          → client.send req w ≡ (done resp, w')
          → resp.status_code ≢ 200
          → json.error_response resp.body ≡ done r
          → Exchanged (fails (response r)) w'
      unreadable :
          {req : HttpRequest} {resp : HttpResponse} {t : String} {w' : W}
          → Posted outside json c svc url target content_type request w req
          → client.send req w ≡ (done resp, w')
          → resp.status_code ≢ 200
          → json.error_response resp.body ≡ failed t
          → Exchanged (fails (text t)) w'

    answered-Exchanged :
        {req : HttpRequest} {resp : HttpResponse} {w' : W}
        → Posted outside json c svc url target content_type request w req
        → client.send req w ≡ (done resp, w')
        → Exchanged (judged read fails (ok resp)) w'
    unfolding refusal
    answered-Exchanged {resp = resp} {w'} p s = elim (Bool-cases (eqb resp.status_code 200)) [
      | inl same ↦ rw same (accepted p s (ground arith))
      | inr other ↦ elim (Attempt-cases (json.error_response resp.body)) [
        | inl (r, e) ↦ rw (other, refusal, e) (refused p s (λ q. ground arith) e)
        | inr (t, e) ↦ rw (other, refusal, e) (unreadable p s (λ q. ground arith) e)
      ]
    ]

    sent-Exchanged :
        {req : HttpRequest} (a : Attempt HttpResponse) {w' : W}
        → Posted outside json c svc url target content_type request w req
        → client.send req w ≡ (a, w')
        → Exchanged
            (judged read fails (returned a >>= dumped outside json c outside.dump_response))
            w'
    sent-Exchanged (failed t) p s = broken p s
    sent-Exchanged (done resp) p s = elim (dumped_cases outside json c outside.dump_response resp) [
      | inl e ↦ rw e (answered-Exchanged p s)
      | inr (on, t, unread, e) ↦ rw e (undumped p s on unread)
    ]

    pub judged-Exchanged :
        let answer =
          prepare_and_execute_request outside json c client svc url target content_type request w in
        Exchanged (judged read fails answer.0) answer.1
    unfolding prepare_and_execute_request executed
    judged-Exchanged =
        elim (Result-cases (prepared outside json c svc url target content_type request w)) [
          | inl (req, e) ↦ rw e (
              sent-Exchanged (client.send req w).0
                (prepared-Posted outside json c svc url target content_type request w e) refl)
          | inr (x, e) ↦
              let (t, same) =
                prepared-IsLocal outside json c svc url target content_type request w x e in
              rw (e, same) (unsent (e ∙ ap err same))
        ]
