-- ===== src/Pollers.antt =====
-- The pollers (poller.go). `W` is the state of the world outside, which the client and the callback
-- change. The time of a task's latency only reaches the log.
pub mod Shutdown
use swf4go.Prelude.{String, Bool, true, Option, none, some, ◌==◌, if◌then◌else◌}
use swf4go.Go.{GoError, Result, ok, err, Exec, returns}
use swf4go.Protocol.Workers.{
  PollForDecisionTaskRequest, PollForDecisionTaskResponse, PollForActivityTaskRequest,
  PollForActivityTaskResponse,
}

pub record DecisionTaskPoller : Type 0 where
  pub identity : String
  pub domain : String
  pub task_list : String

pub record ActivityTaskPoller : Type 0 where
  pub identity : String
  pub domain : String
  pub task_list : String

-- A response without a token is no task.
abbrev pub decision_task :
    Result PollForDecisionTaskResponse → Result (Option PollForDecisionTaskResponse)
decision_task (err e) = err e
decision_task (ok resp) = ok (if resp.task_token == "" then none else some resp)

abbrev pub activity_task :
    Result PollForActivityTaskResponse → Result (Option PollForActivityTaskResponse)
activity_task (err e) = err e
activity_task (ok resp) = ok (if resp.task_token == "" then none else some resp)

-- What the loop of PollUntilShutdownBy does with what Poll returned.
abbrev pub handled {ℓ} :
    {A : Type 0} {W : Type ℓ} → (A → W → Exec W) → Result (Option A) → W → Exec W
handled on_task (err e) w = returns w
handled on_task (ok none) w = returns w
handled on_task (ok (some task)) w = on_task task w

module _ {ℓ} {W : Type ℓ} where
  abbrev pub poll_decision :
      (PollForDecisionTaskRequest → W → Result PollForDecisionTaskResponse × W)
      → DecisionTaskPoller
      → W
      → Result (Option PollForDecisionTaskResponse) × W
  poll_decision client p w =
      let answer =
        client
          (record {
            domain = p.domain;
            identity = p.identity;
            maximum_page_size = 0;
            next_page_token = "";
            reverse_order = true;
            task_list = record { name = p.task_list };
          })
          w in
      (decision_task answer.0, answer.1)

  abbrev pub poll_activity :
      (PollForActivityTaskRequest → W → Result PollForActivityTaskResponse × W)
      → ActivityTaskPoller
      → W
      → Result (Option PollForActivityTaskResponse) × W
  poll_activity client p w =
      let answer =
        client
          (record {
            domain = p.domain;
            identity = p.identity;
            task_list = record { name = p.task_list };
          })
          w in
      (activity_task answer.0, answer.1)

  -- One round of the loop that was not told to stop.
  abbrev pub decision_round :
      (PollForDecisionTaskRequest → W → Result PollForDecisionTaskResponse × W)
      → DecisionTaskPoller
      → (PollForDecisionTaskResponse → W → Exec W)
      → W
      → Exec W
  decision_round client p on_task w =
      let polled = poll_decision client p w in handled on_task polled.0 polled.1

  abbrev pub activity_round :
      (PollForActivityTaskRequest → W → Result PollForActivityTaskResponse × W)
      → ActivityTaskPoller
      → (PollForActivityTaskResponse → W → Exec W)
      → W
      → Exec W
  activity_round client p on_task w =
      let polled = poll_activity client p w in handled on_task polled.0 polled.1
