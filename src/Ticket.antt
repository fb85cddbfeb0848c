-- ===== src/Ticket.antt =====
-- internal/domain/ticket: tickets and the templates that they are made from.
pub mod Entity
pub mod World
pub mod Service
pub mod Lifecycle
pub mod Steps
pub mod History
