-- ===== src/Presence.antt =====
-- The agents' working state: internal/domain/identity, the part of AgentPresenceService, and its
-- repository.
pub mod Entity
pub mod Table
pub mod World
pub mod Service
pub mod Timer
pub mod Reset
pub mod Request
pub mod Moves
pub mod History
pub mod Timers
pub mod Stale
pub mod Ghosts
pub mod Wrapping
