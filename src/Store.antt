-- ===== src/Store.antt =====
-- The database layer, internal/mastermind/store.
pub mod Row
pub mod Query
pub mod Transitions
pub mod Tasks
pub mod Edit
pub mod Claim
pub mod Lifecycle
pub mod Park
pub mod Logs
pub mod History
pub mod Workers
pub mod Dashboard
pub mod Examples
pub mod AgentDetail
