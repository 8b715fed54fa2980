-- ===== src/Raft.antt =====
-- src/raft and include/roole/raft: the consensus module and the key-value store over it.
pub mod Types
pub mod Wire
pub mod Peers
pub mod State
pub mod Handlers
pub mod Client
pub mod Datastore
