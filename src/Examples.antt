-- ===== src/Examples.antt =====
-- The theorems at concrete inputs, and runs of the definitions.
mod Calls
mod Flows
mod Ivr
mod Lifecycle
mod Agents
mod Campaigns
mod Dispatch
mod Tickets
