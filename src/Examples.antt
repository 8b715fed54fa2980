-- ===== src/Examples.antt =====
-- Runs of the theorems at concrete inputs: a node of a cluster of three, messages, and a store.
pub mod Data
pub mod Votes
pub mod Logs
pub mod Messages
pub mod Keys
pub mod Peers
pub mod Members
pub mod Gossip
pub mod Services
pub mod Calls
pub mod Settings
