-- ===== src/Dialer.antt =====
-- internal/application/dialer: the loops that dial the cases of running campaigns.
pub mod World
pub mod Service
pub mod Calls
pub mod Slots
pub mod Placed
pub mod Bounds
