-- ===== src/Protocol.antt =====
-- protocol.go: the structs of the SWF and Kinesis protocols, field by field.
pub mod Date
pub mod ErrorResponse
pub mod Common
pub mod EventType
pub mod DecisionType
pub mod ActivityEvents
pub mod WorkflowEvents
pub mod DecisionAttributes
pub mod HistoryEvent
pub mod Decision
pub mod EventTable
pub mod DecisionTable
pub mod DecisionSelectors
pub mod Zero
pub mod Workers
pub mod Admin
pub mod Info
pub mod Kinesis
mod DateTests
