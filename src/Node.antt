-- ===== src/Node.antt =====
-- The node of src/node: the handlers of the datastore's requests, the pool of peers, and the thread that
-- keeps the peers of the raft node.
pub mod Datastore
pub mod Pool
pub mod PeerSync
