-- ===== src/Clients/Polling.antt =====
-- A started FSM over HTTP: one round of its poller with Client for its client (fsm.go, lines 181 to 234;
-- poller.go, lines 29 to 73; clients.go, lines 389 to 518).
use swf4go.Prelude.{true, ◌≡◌, refl, sym, ◌⊎◌, inl, inr, ◌==◌, Bool-cases}
use swf4go.Go.{GoError, Result, ok, err, Exec, returns, returned, returns-injective}
use swf4go.Protocol.Workers.{PollForDecisionTaskRequest, PollForDecisionTaskResponse}
use swf4go.Pollers.{decision_task, handled}
use swf4go.Fsm.Replication.{default_kinesis_replicator, handle_decision_task}
use swf4go.Fsm.Start.{Started, started_round}
use swf4go.Clients.Json.{Json, Request}
use swf4go.Clients.Http.{Outside}
use swf4go.Clients.Exchange.{Client, client_for, swf_req_with_response}
use swf4go.Clients.Exchanged.{Exchanged}
use swf4go.Clients.Exchanged.Operations.{requests-Exchanged}
use swf4go.Clients.Methods.{workflow_client, decision_worker}
use swf4go.Clients.Parts.{fsm_client}

-- A poll that brought no task: it failed, or its response has no token.
abbrev pub IsIdle : Result PollForDecisionTaskResponse → Type 0
IsIdle answer =
    ((e : GoError) × (answer ≡ err e))
    ⊎ ((task : PollForDecisionTaskResponse) × (answer ≡ ok task) × ((task.task_token == "") ≡ true))

handled_cases {ℓ} :
    {W : Type ℓ} (on_task : PollForDecisionTaskResponse → W → Exec W)
    (answer : Result PollForDecisionTaskResponse) (w w' : W)
    → handled on_task (decision_task answer) w ≡ returns w'
    → (IsIdle answer × (w' ≡ w))
      ⊎ ((task : PollForDecisionTaskResponse) × (answer ≡ ok task) × (on_task task w ≡ returns w'))
handled_cases on_task (err e) w w' h = inl (inl (e, refl), sym (returns-injective h))
handled_cases on_task (ok task) w w' h = elim (Bool-cases (task.task_token == "")) [
  | inl empty ↦ inl (inr (task, refl, empty), sym (returns-injective (rw empty at h)))
  | inr given ↦ inr (task, refl, rw given at h)
]

module _ {ℓ κ} {V : Type ℓ} {W : Type κ} (outside : Outside W) (json : Json) (c : Client W)
    (s : Started V) where
  abbrev pub poll_request : PollForDecisionTaskRequest
  poll_request = record {
    domain = s.poller.domain;
    identity = s.poller.identity;
    maximum_page_size = 0;
    next_page_token = "";
    reverse_order = true;
    task_list = record { name = s.poller.task_list };
  }

  -- With the default replicator, a round of a started FSM over HTTP makes one exchange through the polling connection, for a task of
  -- its task list, newest events first, and then nothing more, if that brought no task, or else handles
  -- the task that it brought.
  pub started_round-Exchanged :
      (w w' : W)
      → let client = workflow_client outside json c in
        started_round s client.decision_worker_client.poll_for_decision_task
            (fsm_client client)
            default_kinesis_replicator
            w
          ≡ returns w'
        → (answer : Result PollForDecisionTaskResponse) × (between : W) × Exchanged outside json c
            (λ resp. returned (json.poll_for_decision_task_response resp.body))
            err
            c.polling_client
            "swf"
            c.region.swf_endpoint
            "SimpleWorkflowService.PollForDecisionTask"
            "application/x-amz-json-1.0"
            (Request.poll_for_decision_task_request poll_request)
            w
            answer
            between
          × ((IsIdle answer × (w' ≡ between))
              ⊎ ((task : PollForDecisionTaskResponse) × (answer ≡ ok task)
                  × (handle_decision_task s.fsm
                        (fsm_client (workflow_client outside json c))
                        default_kinesis_replicator
                        task
                        between
                      ≡ returns w')))
  unfolding started_round workflow_client decision_worker swf_req_with_response client_for
  started_round-Exchanged w w' h =
      let client = workflow_client outside json c in
      let answer = client.decision_worker_client.poll_for_decision_task poll_request w in
      (
        answer.0,
        answer.1,
        (requests-Exchanged outside json c json.poll_for_decision_task_response
            "PollForDecisionTask" (Request.poll_for_decision_task_request poll_request) w).1,
        handled_cases
            (λ task. handle_decision_task s.fsm (fsm_client client) default_kinesis_replicator task)
            answer.0 answer.1 w' h,
      )
