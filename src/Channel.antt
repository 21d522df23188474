-- ===== src/Channel.antt =====
-- internal/channeldata: the messages of a channel and their sequence numbers.
pub mod Sequence
pub mod Backfill
pub mod Room
pub mod Fresh
mod Examples
