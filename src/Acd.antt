-- ===== src/Acd.antt =====
-- internal/application/acd: the dispatcher that gives queued calls to agents.
pub mod Member
pub mod Queue
pub mod Order
pub mod World
pub mod Service
pub mod Tick
pub mod Pick
pub mod Choice
pub mod Dispatch
pub mod Overflow
pub mod Expiry
pub mod Ordered
pub mod History
pub mod Groups
