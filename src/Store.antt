-- ===== src/Store.antt =====
-- The Store guest, cmd/store: its records, and the commands that the hub sends it.
pub mod Payload
pub mod World
pub mod Names
pub mod Git
pub mod Merge
pub mod Proposals
pub mod Court
pub mod Records
pub mod Timers
pub mod Members
pub mod Channels
pub mod Membership
pub mod Turns
pub mod Reads
pub mod Policy
pub mod Audit
pub mod Panics
pub mod Commands
pub mod Dispatch
pub mod Frame
pub mod Approval
pub mod Ledger
pub mod Recorded
pub mod Refusal
pub mod Sealed
pub mod Discover
pub mod Fixture
pub mod Examples
