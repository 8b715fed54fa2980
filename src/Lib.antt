-- ===== src/Lib.antt =====
-- eRoole: the Raft consensus module and the key-value store over it, the cluster view and the gossip
-- protocol that keeps it, remote procedure calls between nodes, and the event bus.
--
-- A node is set up from a configuration file. It keeps a term, a vote and a log (`Persistent`), a
-- role, a commit index and timers (`Volatile`), and a table of peers. Threads stand for election,
-- send heartbeats and apply committed entries; RPC handlers answer the peers' RequestVote,
-- AppendEntries and InstallSnapshot messages; clients of the key-value store submit commands to the
-- log, which every node executes when it applies the entry; the requests come as bytes to the
-- handlers of the node. Apart from that a node keeps a view of the cluster's members. The gossip
-- protocol changes the view by the messages that it gets from the other nodes, by its own rounds
-- and by timeouts, and tells its caller of changes and of messages to send. RPC messages have a
-- header, and a registry leads from function ids to handlers; the server reads requests from its
-- connections, calls the handlers and answers, and the client sends a request and waits for its
-- response. A thread of the node takes the members of the view over as peers of the raft node. The
-- event bus hands events from publishers to subscribers through a queue.
--
-- Where the code is modelled:
-- Prelude: shared names, Boolean tests and lists; Wire: byte readers and writers, the words of
--   src/raft/rpc/raft_serialization.c, and rules for bounds.
-- Raft.Types: include/roole/raft/raft_types.h.
-- Raft.Wire: the messages of src/raft/rpc/raft_serialization.c. raft_serialize_X and
--   raft_deserialize_X are serialize_X and deserialize_X; a buffer is a list of bytes, a serialiser
--   returns what it writes or `none` for 0, a deserialiser `ok`, `fail` for -1, or `fault` for a
--   read past the end of the buffer.
-- Raft.Peers: the peer arrays, raft_add_peer and raft_remove_peer of src/raft/core/raft_state.c.
-- Raft.State: the rest of src/raft/core/raft_state.c. start_election is in State.Election,
--   send_append_entries_to_peer and the heartbeat thread in State.Replication, the apply thread in
--   State.Apply, raft_wait_committed in State.Wait.
-- Raft.Handlers: src/raft/rpc/raft_handlers.c. handle_raft_X is handle_X; what it does between the
--   deserialiser and the serialiser is request_vote, append_entries and install_snapshot.
-- Raft.Client: src/raft/rpc/raft_client.c; raft_rpc_X is rpc_X.
-- Raft.Datastore: src/raft/datastore/raft_datastore.c and include/roole/raft/raft_datastore.h. The
--   table of records is in Datastore.Table, commands as bytes in Datastore.Command, their execution
--   (raft_cmd_deserialize_and_execute, raft_datastore_apply) in Datastore.Execute, and the client's
--   operations in Datastore.Client.
-- Cluster.View: src/cluster/cluster_view.c; cluster_view_X is X. A view is the list of its members
--   and its capacity.
-- Gossip.Types: include/roole/gossip/gossip_types.h. Gossip.Wire: the messages of
--   src/gossip/protocol/gossip_serialization.c, with a result of its own for a write past the buffer.
-- Gossip.Bootstrap: the bootstrap responses of the same file.
-- Gossip.Swim: the protocol's state of include/roole/gossip/gossip_protocol.h and what the handlers
--   share; Swim.Handlers is src/gossip/protocol/message_handlers.c, Swim.Rounds is
--   src/gossip/protocol/swim_state.c. gossip_protocol_X is X. A call returns the new state and the
--   list of the callbacks that it made; the view is the one of Cluster.View.
-- Rpc.Frame: src/rpc/core/rpc_serialization.c. Rpc.Registry: src/rpc/core/handler_registry.c.
-- Rpc.Server: src/rpc/server/rpc_server.c. The loop of handle_connection_data over the bytes received
--   is process_messages, and its body is round; the connections and the events of rpc_server_run are
--   in Server.Connections. Rpc.Client: src/rpc/client/rpc_client.c; rpc_client_X is X. The socket of
--   a client is the list of the pieces that arrive on it, up to the end or an error.
-- Node.PeerSync: raft_peer_sync_thread_fn of src/node/state/node_state.c.
-- Node.Datastore: src/node/handlers/raft_datastore_handlers.c; handle_raft_kv_X is handle_kv_X.
-- Node.Pool: src/node/peers/peer_pool.c; peer_pool_X is X. Core.Services:
--   src/core/service_registry.c, where the cells of one type of service are a list.
-- Core.Queue and Core.Events: the queue, and the rest, of src/core/event_bus.c.
-- Metrics: the registry of src/metrics/metrics.c, find_or_create_metric above all.
-- Config: src/config/config.c and src/config/config_validator.c. Config.Text has the functions on
--   strings, Config.Load the reader, from the bytes of a file on, and Config.Validator the checks.
-- Slots: the search for the first cell of an array, and what it finds after a write.
-- Examples: the theorems at concrete inputs.
--
-- Conventions. State is passed explicitly. time_now_ms, rand, malloc and the network are arguments:
-- a call over the network is a record of the response and of what other threads do to the node
-- while it is under way. A counter of the source wraps where it is written `% 2 ^ 64`. The loops
-- are structural recursion over the peers or the records, and over the number of entries from
-- lastApplied to commitIndex, so none needs fuel beyond its own bound; the server's loop has as
-- many rounds as there are bytes, of which each round takes at least 12. Where a loop of the gossip
-- handlers would read past the array of updates, handle_message returns nothing. The array of peers
-- of a PING round has room, since the node's view has the capacity of that array.
--
-- log_contains_entry and append_log_entries are declared in src/raft/rpc/raft_handlers.c but no
-- file of the repository defines them; they are parameters. Not modelled: locks themselves, the
-- lifecycle of threads and memory, the snapshot callbacks of the store (empty in the source), and
-- the other parts of the program: src/gossip/engine, src/cluster/membership.c, the channel of
-- src/rpc and the opening of its sockets, src/transport, the rest of src/node and of src/metrics,
-- and src/logger. Left out of the peer pool and of the metrics is what computes with floats: the
-- choice by the least load, the values and the histograms.
pub mod Prelude
pub mod Wire
pub mod Slots
pub mod Raft
pub mod Cluster
pub mod Gossip
pub mod Rpc
pub mod Node
pub mod Core
pub mod Config
pub mod Metrics
pub mod Examples
