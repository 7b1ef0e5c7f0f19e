-- ===== src/Telemetry.antt =====
-- src/internal/telemetry: decoding and validation of one telemetry batch.
pub mod Errors
pub mod Topic
pub mod Timestamp
pub mod Model
pub mod Range
pub mod Decode
pub mod Message
pub mod Ack
