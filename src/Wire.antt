-- ===== src/Wire.antt =====
-- Big-endian words and bounds-checked reading, which every message format of the repository uses:
-- write_u16 ... read_u64 of src/raft/rpc/raft_serialization.c, the same helpers of
-- src/gossip/protocol/gossip_serialization.c, and the memcpy/htonl pairs elsewhere.
pub mod Word
pub mod Reader
pub mod Guarded
pub mod Text
pub mod Stream
