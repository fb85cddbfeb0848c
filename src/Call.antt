-- ===== src/Call.antt =====
-- internal/domain/call: the call record, its table and its service.
pub mod Entity
pub mod Table
pub mod World
pub mod Durations
pub mod Control
pub mod Transfer
pub mod Create
pub mod Supervise
pub mod Lifecycle
pub mod Evolution
pub mod Request
pub mod History
pub mod Atomicity
pub mod EventLog
pub mod Timing
pub mod Supervision
