-- ===== src/Clients.antt =====
-- The clients of both services (clients.go): their interfaces, and Client, which implements them over HTTP.
pub mod Region
pub mod Interfaces
pub mod Json
pub mod Http
pub mod Exchange
pub mod Methods
pub mod Posted
pub mod Exchanged
mod Samples
mod Tests
mod RoundTests
pub mod Parts
pub mod Migration
pub mod DecisionTask
pub mod Polling
