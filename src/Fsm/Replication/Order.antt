-- ===== src/Fsm/Replication/Order.antt =====
-- The calls that one decision task makes, in their order (fsm.go, lines 193 to 234).
use swf4go.Prelude.{◌≡◌, ◌⊎◌, Option, none, List, [], ◌∷◌, ◌++◌}
use swf4go.Go.{GoError, Result, returns}
use swf4go.Protocol.Decision.{Decision}
use swf4go.Protocol.Workers.{PollForDecisionTaskResponse, RespondDecisionTaskCompletedRequest}
use swf4go.Protocol.Kinesis.{PutRecordRequest, PutRecordResponse}
use swf4go.Fsm.Serialization.{SerializedState}
use swf4go.Fsm.Machine.{Fsm}
use swf4go.Fsm.Tick.{tick}
use swf4go.Fsm.Replication.{FsmClient, KinesisReplicator, completion, handle_decision_task}
use swf4go.Fsm.Replication.Put.{Put, handle_decision_task_cases}

pub data Call : Type 0 where
  responded : RespondDecisionTaskCompletedRequest → Call
  put : PutRecordRequest → Call

-- A client that writes down what it is asked, and answers as given.
abbrev pub recording :
    (RespondDecisionTaskCompletedRequest → Option GoError)
    → (PutRecordRequest → Result PutRecordResponse)
    → FsmClient (List Call)
recording answer stored = record {
  respond_decision_task_completed = λ r w. (answer r, w ++ responded r ∷ []);
  put_record = λ r w. (stored r, w ++ put r ∷ []);
}

module _ {ℓ} {V : Type ℓ} (f : Fsm V) (task : PollForDecisionTaskResponse)
    (answer : RespondDecisionTaskCompletedRequest → Option GoError)
    (stored : PutRecordRequest → Result PutRecordResponse)
    (replicator : KinesisReplicator (List Call)) where
  -- A task that is handled sends the decisions of its Tick exactly once, first. Only when they were
  -- accepted, a state came with them, and the FSM has a stream, is the replicator called, once, under the
  -- workflow's own identifier, with the put of that state there; the FSM calls nothing else, whatever
  -- the replicator makes of the put.
  pub handle_decision_task-calls :
      (before after : List Call)
      → handle_decision_task f (recording answer stored) replicator task before ≡ returns after
      → (ds : List Decision) × (new : Option SerializedState) × (tick f task ≡ returns (ds, new))
        × (let request = completion task ds new in
            let sent = before ++ responded request ∷ [] in
            (after ≡ sent)
            ⊎ ((answer request ≡ none)
                × Put f (recording answer stored) replicator task new sent after))
  handle_decision_task-calls before after h =
      handle_decision_task_cases f (recording answer stored) replicator task before after h
