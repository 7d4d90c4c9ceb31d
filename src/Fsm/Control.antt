-- ===== src/Fsm/Control.antt =====
-- The fields of an FSM that Init sets beside those of `Fsm` (fsm.go, lines 18 to 22 and 162 to 183), and
-- Stop (lines 577 to 579), which only sends on a channel that nothing receives from.
use swf4go.Prelude.{ℕ, Bool, true, false, Option, none, some}
use swf4go.Prelude.Map.{Map}
use swf4go.Pollers.Shutdown.{new_manager}
use swf4go.Fsm.Replication.{KinesisReplicator, default_kinesis_replicator}

-- The two channels have room for one value: `some true` is one in which a value waits, `none` is nil.
pub record Controls {κ} (W : Type κ) : Type κ where
  pub stop : Option Bool
  pub stop_ack : Option Bool
  pub poller_shutdown_manager : Option (Map ℕ)
  pub kinesis_replicator : Option (KinesisReplicator W)

or_made {ℓ} : {A : Type ℓ} → Option A → A → Option A
or_made none made = some made
or_made (some a) made = some a

unfoldable pub init_controls {κ} : {W : Type κ} → Controls W → Controls W
unfolding or_made
init_controls c = record {
  stop = or_made c.stop false;
  stop_ack = or_made c.stop_ack false;
  poller_shutdown_manager = or_made c.poller_shutdown_manager new_manager;
  kinesis_replicator = or_made c.kinesis_replicator default_kinesis_replicator;
}

-- f.stop <- true, for a channel that nothing receives from: `none` if it blocks for ever.
send_stop : Option Bool → Option Bool
send_stop (some false) = some true
send_stop _ = none

unfoldable pub stop_fsm {κ} : {W : Type κ} → Controls W → Option (Controls W)
unfolding send_stop
stop_fsm c = elim (send_stop c.stop) [
  | some full ↦ some (record c { stop = some full })
  | none ↦ none
]
