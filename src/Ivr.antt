-- ===== src/Ivr.antt =====
-- internal/application/ivr: the interpreter that takes a call through a published flow.
pub mod Variables
pub mod Session
pub mod Providers
pub mod Config
pub mod Basic
pub mod Routing
pub mod Conditions
pub mod Interaction
pub mod Integration
pub mod Engine
pub mod Manners
pub mod Registry
pub mod Walk
pub mod Execution
pub mod SubFlows
pub mod SelfReference
