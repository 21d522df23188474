-- ===== src/Hub.antt =====
-- cmd/aegishub: the router between components.
pub mod Acl
pub mod Wire
pub mod Verify
pub mod Registry
pub mod Pending
pub mod Snapshots
pub mod CidCommand
pub mod Route
pub mod Hello
pub mod HelloGuard
pub mod Mediation
pub mod Delivery
pub mod Presence
pub mod Freshness
pub mod Rules
pub mod CidGuard
pub mod Ephemeral
mod Fixture
mod PolicyExamples
mod HelloExamples
mod Examples
