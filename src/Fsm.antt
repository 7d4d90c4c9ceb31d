-- ===== src/Fsm.antt =====
-- The finite state machine that decides a workflow (fsm.go, fsm_models.go).
pub mod Outcome
pub mod Serialization
pub mod Serializers
pub mod Context
pub mod Machine
pub mod Execution
pub mod History
pub mod Capture
pub mod Tick
pub mod Setup
pub mod Replication
pub mod Control
pub mod Start
pub mod Samples
mod Tests
mod SetupTests
mod ControlTests
mod ContextTests
mod SerializersTests
mod SafetyTests
