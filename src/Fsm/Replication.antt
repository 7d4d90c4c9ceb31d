-- ===== src/Fsm/Replication.antt =====
-- The answer to a decision task, and the copy of the new state in Kinesis (fsm.go, lines 21 to 25 and
-- 193 to 234; fsm_models.go, line 122). `W` is the state of the world outside: the client and the
-- replicator, which are parameters, take it and leave it changed.
pub mod Order
pub mod Put
use swf4go.Prelude.{String, Bool, true, false, Option, none, some, List, ◌==◌, if◌then◌else◌}
use swf4go.Go.{GoError, Result, ok, err, Exec, returns, ◌>>=◌, deref}
use swf4go.Protocol.Decision.{Decision}
use swf4go.Protocol.Workers.{PollForDecisionTaskResponse, RespondDecisionTaskCompletedRequest}
use swf4go.Protocol.Kinesis.{PutRecordRequest, PutRecordResponse}
use swf4go.Fsm.Serialization.{SerializedState, StateSerializer, replication}
use swf4go.Fsm.Machine.{Fsm}
use swf4go.Fsm.Tick.{tick}

-- What the FSM uses of its WorkflowClient.
pub record FsmClient {ℓ} (W : Type ℓ) : Type ℓ where
  pub respond_decision_task_completed : RespondDecisionTaskCompletedRequest → W → Option GoError × W
  pub put_record : PutRecordRequest → W → Result PutRecordResponse × W

abbrev pub KinesisReplicator {ℓ} : Type ℓ → Type ℓ
KinesisReplicator W =
    String → String → (W → Result PutRecordResponse × W) → W → Result PutRecordResponse × W

abbrev pub default_kinesis_replicator {ℓ} : {W : Type ℓ} → KinesisReplicator W
default_kinesis_replicator fsm workflow_id put = put

abbrev pub state_name_of : Option SerializedState → String
state_name_of none = ""
state_name_of (some s) = s.replication_data.state_name

abbrev pub completion :
    PollForDecisionTaskResponse
    → List Decision
    → Option SerializedState
    → RespondDecisionTaskCompletedRequest
completion task decisions new = record {
  decisions = decisions;
  execution_context = state_name_of new;
  task_token = task.task_token;
}

module _ {ℓ κ} {V : Type ℓ} {W : Type κ} (f : Fsm V) (client : FsmClient W)
    (replicator : KinesisReplicator W) (task : PollForDecisionTaskResponse) where
  abbrev pub record_of : String → PutRecordRequest
  record_of text = record {
    data_bytes = text;
    explicit_hash_key = "";
    partition_key = task.workflow_execution.workflow_id;
    sequence_number_for_ordering = "";
    stream_name = f.kinesis_stream;
  }

  -- The replicator's error, and its response, only reach the log.
  replicate_text : Result String → W → W
  replicate_text (err e) w = w
  replicate_text (ok text) w =
      (replicator f.name task.workflow_execution.workflow_id (client.put_record (record_of text))
        w).1

  replicate_state : SerializedState → W → Exec W
  unfolding replicate_text
  replicate_state new w = do
    s ← deref f.serializer
    r ← s.serialize (replication new.replication_data)
    returns (replicate_text r w)

  -- What is left to do once the decisions have been sent.
  replicate : Option GoError → Option SerializedState → W → Exec W
  unfolding replicate_state
  replicate (some e) new w = returns w
  replicate none none w = returns w
  replicate none (some new) w = if f.kinesis_stream == "" then returns w else replicate_state new w

  unfoldable pub handle_decision_task : W → Exec W
  unfolding tick replicate
  handle_decision_task w = do
    (decisions, new) ← tick f task
    let answer = client.respond_decision_task_completed (completion task decisions new) w
    replicate answer.0 new answer.1
