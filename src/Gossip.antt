-- ===== src/Gossip.antt =====
-- The gossip protocol of src/gossip/protocol: its messages on the wire and the SWIM state machine
-- that keeps the cluster view up to date.
pub mod Types
pub mod Wire
pub mod Bootstrap
pub mod Swim
