-- ===== src/Fsm/ControlTests.antt =====
-- The sample FSM initialized, started and stopped.
use swf4go.Prelude.{ℕ, String, true, Option, none, some, [], ◌∷◌, ◌≡◌, refl}
use swf4go.Go.{Exec, returns, panics, of_value, ◌>>=◌}
use swf4go.Fsm.Setup.{init}
use swf4go.Fsm.Control.{Controls, init_controls, stop_fsm}
use swf4go.Fsm.Start.{Started, start_fsm}
use swf4go.Fsm.Samples.{numbers, counter}

abbrev unset : Controls ℕ
unset = record {
  stop = none;
  stop_ack = none;
  poller_shutdown_manager = none;
  kinesis_replicator = none;
}

-- what Init leaves alone
abbrev managed : Controls ℕ
managed = record unset { stop = some true; poller_shutdown_manager = some (("a", 1) ∷ []) }

kept_on_init :
    ((init_controls managed).stop ≡ some true)
    × ((init_controls managed).poller_shutdown_manager ≡ some (("a", 1) ∷ []))
unfolding init_controls
kept_on_init = (refl, refl)

-- Before Init, Stop blocks; after it, it returns once, and the second Stop blocks.
stopped_before_init : stop_fsm unset ≡ none
unfolding stop_fsm
stopped_before_init = refl

abbrev stopped : Option (Controls ℕ)
unfolding stop_fsm init_controls
stopped = stop_fsm (init_controls unset)

stopped_once : stopped ≡ some (record (init_controls unset) { stop = some true })
unfolding stopped stop_fsm init_controls
stopped_once = refl

stopped_twice : stop_fsm (record (init_controls unset) { stop = some true }) ≡ none
unfolding stop_fsm init_controls
stopped_twice = refl

-- Start panics where Init does, and else names the poller after the FSM.
poller_name_of : Exec (Started ℕ × Controls ℕ) → Exec String
poller_name_of e = do (s, c) ← e; returns s.poller_name

started_named : poller_name_of (start_fsm numbers counter unset) ≡ returns "counter-poller"
unfolding start_fsm init init_controls poller_name_of
started_named = refl

started_without_state :
    start_fsm numbers (record counter { initial_state = none }) unset
    ≡ panics (of_value "No Initial State Defined For FSM")
unfolding start_fsm init
started_without_state = refl
