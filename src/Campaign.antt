-- ===== src/Campaign.antt =====
-- Outbound campaigns: internal/domain/campaign and its repository.
pub mod Entity
pub mod World
pub mod Service
pub mod Cases
pub mod Lifecycle
pub mod Steps
pub mod Counts
pub mod History
pub mod Retries
pub mod DoNotCall
