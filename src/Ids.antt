-- ===== src/Ids.antt =====
-- Component and VM ids: which names a caller may choose, and which are reserved.
pub mod Families
pub mod VmId
pub mod ChannelId
pub mod Reserved
pub mod HubReserved
pub mod Compose
pub mod Gate
pub mod Lowered
mod Examples
