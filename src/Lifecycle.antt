-- ===== src/Lifecycle.antt =====
-- internal/application/lifecycle: what a call's life sets off in the other domains.
pub mod World
pub mod Service
pub mod Inbound
pub mod Hooks
pub mod Request
pub mod Frame
pub mod Rows
pub mod Joint
pub mod History
pub mod Slots
pub mod Ending
