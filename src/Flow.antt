-- ===== src/Flow.antt =====
-- internal/domain/routing: the IVR flow graph, its validation and its editing lock.
pub mod Names
pub mod Graph
pub mod Search
pub mod Validate
pub mod Service
pub mod Editing
pub mod Locks
pub mod Sound
pub mod Published
