-- ===== src/Clients/DecisionTask.antt =====
-- A decision task over HTTP: handleDecisionTask with Client for its client (fsm.go, lines 193 to 234, and clients.go,
-- lines 389 to 518).
use swf4go.Prelude.{String, ◌≡◌, sym, subst, ◌⊎◌, inl, inr, Option, none, some, List}
use swf4go.Go.{GoError, Result, err, returns, returned}
use swf4go.Protocol.Decision.{Decision}
use swf4go.Protocol.Workers.{PollForDecisionTaskResponse}
use swf4go.Protocol.Kinesis.{PutRecordResponse}
use swf4go.Fsm.Serialization.{SerializedState}
use swf4go.Fsm.Machine.{Fsm}
use swf4go.Fsm.Tick.{tick}
use swf4go.Fsm.Replication.{default_kinesis_replicator, completion, record_of, handle_decision_task}
use swf4go.Fsm.Replication.Put.{Put, handle_decision_task_cases}
use swf4go.Clients.Json.{Json, Request}
use swf4go.Clients.Http.{Outside}
use swf4go.Clients.Exchange.{Client, swf_req_no_response, kinesis_req_with_response}
use swf4go.Clients.Exchanged.{Exchanged}
use swf4go.Clients.Exchanged.Operations.{requests-Exchanged}
use swf4go.Clients.Methods.{workflow_client, decision_worker, kinesis}
use swf4go.Clients.Parts.{fsm_client}

module _ {ℓ κ} {V : Type ℓ} {W : Type κ} (outside : Outside W) (json : Json) (c : Client W)
    (f : Fsm V) (task : PollForDecisionTaskResponse) where
  -- The exchange that answers the task, and the one that replicates the state.
  abbrev pub RespondsTo : List Decision → Option SerializedState → W → Option GoError → W → Type κ
  RespondsTo ds new =
      Exchanged outside json c (λ _. none) some c.http_client "swf" c.region.swf_endpoint
        "SimpleWorkflowService.RespondDecisionTaskCompleted" "application/x-amz-json-1.0"
        (Request.respond_decision_task_completed_request (completion task ds new))

  abbrev pub Replicates : String → W → Result PutRecordResponse → W → Type κ
  Replicates text =
      Exchanged outside json c (λ resp. returned (json.put_record_response resp.body)) err
        c.http_client "kinesis" c.region.kinesis_endpoint "Kinesis_20131202.PutRecord"
        "application/x-amz-json-1.1"
        (Request.put_record_request (
          record_of f (fsm_client (workflow_client outside json c)) default_kinesis_replicator task
            text))

  -- With the default replicator, a task that is handled over HTTP makes one exchange, which answers the task with the decisions of its
  -- Tick, and then at most one more, only if the answer was accepted, which puts the new state into the
  -- stream.
  pub handle_decision_task-Exchanged :
      (w w' : W)
      → handle_decision_task f
          (fsm_client (workflow_client outside json c))
          default_kinesis_replicator
          task
          w
        ≡ returns w'
      → (ds : List Decision) × (new : Option SerializedState) × (tick f task ≡ returns (ds, new))
        × (answer : Option GoError) × (between : W) × RespondsTo ds new w answer between
        × ((w' ≡ between)
            ⊎ ((answer ≡ none)
                × (put : Put f
                    (fsm_client (workflow_client outside json c))
                    default_kinesis_replicator
                    task
                    new
                    between
                    w')
                × (stored : Result PutRecordResponse) × Replicates put.text between stored w'))
  unfolding workflow_client decision_worker kinesis swf_req_no_response kinesis_req_with_response
  handle_decision_task-Exchanged w w' h =
      let client = fsm_client (workflow_client outside json c) in
      let (ds, new, p, rest) =
        handle_decision_task_cases f client default_kinesis_replicator task w w' h in
      let answer = client.respond_decision_task_completed (completion task ds new) w in
      (
        ds,
        new,
        p,
        answer.0,
        answer.1,
        (requests-Exchanged outside json c json.put_record_response "RespondDecisionTaskCompleted"
            (Request.respond_decision_task_completed_request (completion task ds new)) w).0,
        elim rest [
          | inl same ↦ inl same
          | inr (accepted, put) ↦ inr (accepted, put, _, replicated put.text put.put)
        ],
      )
    where
      replicated :
          {between after : W} (text : String)
          → let client = fsm_client (workflow_client outside json c) in
            after
              ≡ (client.put_record
                  (record_of f client default_kinesis_replicator task text)
                  between).1
            → Replicates text between
                (client.put_record
                  (record_of f client default_kinesis_replicator task text)
                  between).0
                after
      replicated text e =
          subst (Replicates text _ _) (sym e)
            ((requests-Exchanged outside json c json.put_record_response "PutRecord" _ _).3)
