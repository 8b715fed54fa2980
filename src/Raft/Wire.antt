-- ===== src/Raft/Wire.antt =====
-- src/raft/rpc/raft_serialization.c.
pub mod Entry
pub mod Vote
pub mod Append
pub mod Snapshot
