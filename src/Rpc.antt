-- ===== src/Rpc.antt =====
-- The RPC subsystem, src/rpc: the frame around each message, the table of handlers, and the server
-- and client over them.
pub mod Frame
pub mod Registry
pub mod Server
pub mod Client
