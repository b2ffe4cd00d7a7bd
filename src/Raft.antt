-- ===== src/Raft.antt =====
-- code/raft.h, the Raft core.
pub mod Ids
pub mod Log
pub mod State
pub mod Quorum
pub mod Peers
pub mod Config
pub mod Durable
pub mod Step
pub mod Lead
pub mod Vote
pub mod Append
pub mod Cluster
pub mod Reads
pub mod Reconfig
pub mod Client
pub mod Send
pub mod Tick
pub mod Persist
mod Tests
pub mod Election
pub mod Commit
pub mod Progress
