-- ===== src/Raft/Datastore.antt =====
-- src/raft/datastore/raft_datastore.c and include/roole/raft/raft_datastore.h.
pub mod Table
pub mod Command
pub mod Execute
pub mod Client
