-- ===== src/Permissions.antt =====
-- internal/permissions: capability grants and visibility policy, the Store's source of truth.
pub mod Types
pub mod Match
pub mod Source
pub mod Grants
pub mod Filter
pub mod Capability
pub mod Bootstrap
pub mod World
pub mod Dispatch
mod Examples
