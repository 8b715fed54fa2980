-- ===== src/Raft/Client.antt =====
-- src/raft/rpc/raft_client.c: the calls of the three Raft handlers of a peer. `sent`, `alloc` and the
-- socket are as in Rpc.Client; `memory` tells whether there is memory for the request.
pub mod Vote
use e_roole.Prelude.{ℕ, ◌==◌, not, Bool, List, [], ◌∷◌, Option, none, some, if◌then◌else◌}
use e_roole.Wire.Reader.{Parsed, ok, fail, fault}
use e_roole.Raft.Types.{
  Entry, RequestVoteReq, RequestVoteResp, AppendEntriesReq, AppendEntriesResp, InstallSnapshotReq,
  InstallSnapshotResp,
}
use e_roole.Raft.Wire.Entry.{add_size}
use e_roole.Raft.Wire.Vote.{serialize_request_vote_req, deserialize_request_vote_resp}
use e_roole.Raft.Wire.Append.{serialize_append_entries_req, deserialize_append_entries_resp}
use e_roole.Raft.Wire.Snapshot.{serialize_install_snapshot_req, deserialize_install_snapshot_resp}
use e_roole.Rpc.Server.{status_success, status_internal_error}
use e_roole.Rpc.Client.{Client, Arrival, Answer, call}

-- `FUNC_ID_RAFT_REQUEST_VOTE`, `FUNC_ID_RAFT_APPEND_ENTRIES` and `FUNC_ID_RAFT_INSTALL_SNAPSHOT`
abbrev pub func_id_request_vote : ℕ
func_id_request_vote = 64

abbrev pub func_id_append_entries : ℕ
func_id_append_entries = 65

abbrev pub func_id_install_snapshot : ℕ
func_id_install_snapshot = 66

-- RPC_STATUS_SUCCESS with the response, another status, or a read past the end of the response.
pub data Outcome (R : Type 0) : Type 0 where
  replied : R → Outcome R
  refused : ℕ → Outcome R
  overread : Outcome R

-- A call: the client after it, the message that was handed to send, the outcome, and what is left on
-- the socket.
pub record Called (R : Type 0) : Type 0 where
  pub client : Client
  pub message : Option (List ℕ)
  pub outcome : Outcome R
  pub socket : List Arrival

abbrev pub outcome_of : {R : Type 0} → Parsed R → Outcome R
outcome_of (ok resp) = replied resp
outcome_of fail = refused status_internal_error
outcome_of fault = overread

-- What is made of the answer to rpc_client_call.
abbrev pub finish :
    {R : Type 0} → (List ℕ → Parsed R) → Client × Option (List ℕ) × Answer → Called R
finish read (client, message, answer) = record {
  client = client;
  message = message;
  outcome =
      if not (answer.status == status_success)
      then refused answer.status
      else outcome_of (read answer.response);
  socket = answer.socket;
}

-- The call with a request that was written, or not.
abbrev pub send_request :
    {R : Type 0}
    → (List ℕ → Parsed R)
    → ℕ
    → Option (List ℕ)
    → Client
    → ℕ
    → Bool
    → List Arrival
    → Called R
send_request read func_id none client sent alloc socket = record {
  client = client;
  message = none;
  outcome = refused status_internal_error;
  socket = socket;
}
send_request read func_id (some bytes) client sent alloc socket =
    finish read (call client func_id bytes sent alloc socket)

-- `raft_rpc_request_vote`
unfoldable pub rpc_request_vote :
    Client → RequestVoteReq → ℕ → Bool → List Arrival → Called RequestVoteResp
rpc_request_vote client req sent alloc socket =
    send_request deserialize_request_vote_resp func_id_request_vote
      (serialize_request_vote_req req 128) client sent alloc socket

-- The estimate of the size of an AppendEntries request.
abbrev pub add_entries : ℕ → List Entry → ℕ
add_entries size [] = size
add_entries size (e ∷ es) = add_entries (add_size size (add_size 31 e.data_len)) es

-- `raft_rpc_append_entries`
unfoldable pub rpc_append_entries :
    Client → AppendEntriesReq → Bool → ℕ → Bool → List Arrival → Called AppendEntriesResp
rpc_append_entries client req memory sent alloc socket =
    let written =
      (if memory then serialize_append_entries_req req (add_entries 38 req.entries) else none) in
    send_request deserialize_append_entries_resp func_id_append_entries written client sent alloc
      socket

-- `raft_rpc_install_snapshot`
unfoldable pub rpc_install_snapshot :
    Client → InstallSnapshotReq → Bool → ℕ → Bool → List Arrival → Called InstallSnapshotResp
rpc_install_snapshot client req memory sent alloc socket =
    let written =
      (if memory then serialize_install_snapshot_req req (add_size 39 req.data_len) else none) in
    send_request deserialize_install_snapshot_resp func_id_install_snapshot written client sent
      alloc socket
