-- ===== src/Pollers/Shutdown.antt =====
-- PollerShutdownManager and the loops that it stops, as a step relation (poller.go, lines 50 to 73, 124 to
-- 147 and 149 to 194). A poller stands for one call of PollUntilShutdownBy, which makes its two
-- channels, each with room for one value, and registers them under its name.
pub mod Stopped
pub mod Ready
pub mod Progress
pub mod Bounded
mod Tests
use swf4go.Prelude.{
  ℕ, String, Bool, true, false, Option, none, some, List, [], ◌∷◌, ◌≡◌, eqb, map, if◌then◌else◌,
}
use swf4go.Prelude.Map.{Map, insert, delete}

-- Where the loop of a poller is: polling, about to acknowledge the stop, or returned.
pub data Phase : Type 0 where
  polling stopping returned : Phase

-- Its loop, and whether a value waits in its stop channel and in its acknowledgement channel.
pub record Poller : Type 0 where
  pub phase : Phase
  pub stop : Bool
  pub stop_ack : Bool

-- NewPollerShutdownManager, Register and Deregister, over the names and the pollers behind them.
abbrev pub new_manager : Map ℕ
new_manager = []

unfoldable pub register : String → ℕ → Map ℕ → Map ℕ
unfolding insert
register name p m = insert name p m

unfoldable pub deregister : String → Map ℕ → Map ℕ
unfolding delete
deregister name m = delete name m

-- StopPollers: which pollers it has yet to send to, and to hear from. Go ranges over the map twice, in
-- an order of its own each time.
pub data StopPollers : Type 0 where
  sending : List ℕ → List ℕ → StopPollers
  awaiting : List ℕ → StopPollers
  finished : StopPollers

pub record System : Type 0 where
  pub manager : StopPollers
  pub pollers : ℕ → Poller

abbrev pub set : ℕ → Poller → (ℕ → Poller) → ℕ → Poller
set p x pollers q = if eqb p q then x else pollers q

-- What may happen next, in the manager or in any poller.
pub data Step : System → System → Type 0 where
  -- r.stopChannel <- true, once there is room
  send :
      {f : ℕ → Poller} (p : ℕ) (todo all : List ℕ)
      → (f p).stop ≡ false
      → Step
          (record { manager = sending (p ∷ todo) all; pollers = f })
          (record { manager = sending todo all; pollers = set p (record (f p) { stop = true }) f })
  sent :
      {f : ℕ → Poller} (all : List ℕ)
      → Step
          (record { manager = sending [] all; pollers = f })
          (record { manager = awaiting all; pollers = f })
  -- <-r.stopAckChannel, once there is a value
  hear :
      {f : ℕ → Poller} (p : ℕ) (todo : List ℕ)
      → (f p).stop_ack ≡ true
      → Step
          (record { manager = awaiting (p ∷ todo); pollers = f })
          (record {
            manager = awaiting todo;
            pollers = set p (record (f p) { stop_ack = false }) f;
          })
  heard :
      {f : ℕ → Poller}
      → Step
          (record { manager = awaiting []; pollers = f })
          (record { manager = finished; pollers = f })
  -- the `default` case: a round of polling, when no stop waits
  round :
      {f : ℕ → Poller} {m : StopPollers} (p : ℕ)
      → (f p).phase ≡ polling
      → (f p).stop ≡ false
      → Step (record { manager = m; pollers = f }) (record { manager = m; pollers = f })
  -- case <-stop
  notice :
      {f : ℕ → Poller} {m : StopPollers} (p : ℕ)
      → (f p).phase ≡ polling
      → (f p).stop ≡ true
      → Step
          (record { manager = m; pollers = f })
          (record {
            manager = m;
            pollers = set p (record (f p) { phase = stopping; stop = false }) f;
          })
  -- stopAck <- true; return
  acknowledge :
      {f : ℕ → Poller} {m : StopPollers} (p : ℕ)
      → (f p).phase ≡ stopping
      → (f p).stop_ack ≡ false
      → Step
          (record { manager = m; pollers = f })
          (record {
            manager = m;
            pollers = set p (record (f p) { phase = returned; stop_ack = true }) f;
          })

pub data Reaches : System → System → Type 0 where
  start : {s : System} → Reaches s s
  after : {s t u : System} → Reaches s t → Step t u → Reaches s u
