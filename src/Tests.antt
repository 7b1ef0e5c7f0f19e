-- ===== src/Tests.antt =====
-- Concrete runs of the definitions.
pub mod Query
pub mod Twin
pub mod Cursor
pub mod Scheduler
pub mod Demo
pub mod Telemetry
pub mod Store
pub mod Ingress
pub mod Outbox
pub mod Acks
mod Credential
pub mod History
pub mod Lifecycle
