-- ===== src/Fsm/Start.antt =====
-- Starting an FSM (fsm.go, lines 181 to 191): its poller, and what the goroutine that Start spawns does in a
-- round of that poller's loop.
use swf4go.Prelude.{String}
use Prim.Native.String.{◌++◌}
use swf4go.Go.{Result, Exec, returns, ◌>>=◌}
use swf4go.Protocol.Workers.{PollForDecisionTaskRequest, PollForDecisionTaskResponse}
use swf4go.Pollers.{DecisionTaskPoller, decision_round}
use swf4go.Fsm.Serialization.{StateSerializer}
use swf4go.Fsm.Machine.{Fsm}
use swf4go.Fsm.Setup.{init}
use swf4go.Fsm.Control.{Controls, init_controls}
use swf4go.Fsm.Replication.{FsmClient, KinesisReplicator, handle_decision_task}

pub record Started {ℓ} (V : Type ℓ) : Type ℓ where
  pub fsm : Fsm V
  pub poller : DecisionTaskPoller
  pub poller_name : String

-- Start, with what Init makes of the other fields.
unfoldable pub start_fsm {ℓ κ} :
    {V : Type ℓ} {W : Type κ}
    → StateSerializer V
    → Fsm V
    → Controls W
    → Exec (Started V × Controls W)
unfolding init
start_fsm json f c = do
  g ← init json f
  returns (
    record {
      fsm = g;
      poller = record { identity = g.identity; domain = g.domain; task_list = g.task_list };
      poller_name = g.name ++ "-poller";
    },
    init_controls c,
  )

unfoldable pub started_round {ℓ κ} :
    {V : Type ℓ} {W : Type κ}
    → Started V
    → (PollForDecisionTaskRequest → W → Result PollForDecisionTaskResponse × W)
    → FsmClient W
    → KinesisReplicator W
    → W
    → Exec W
unfolding handle_decision_task
started_round s poll client replicator w =
    decision_round poll s.poller (λ task w'. handle_decision_task s.fsm client replicator task w') w
