-- ===== src/Raft/Client/Vote.antt =====
-- A vote asked for over the network: src/raft/rpc/raft_client.c, src/rpc and
-- src/raft/rpc/raft_handlers.c.
use e_roole.Prelude.{ℕ, ◌^◌, ◌≤◌, ◌<◌, ◌≡◌, ◌≢◌, refl, ap, ◌∙◌, true, List, [], ◌∷◌, some, arith}
use e_roole.Raft.Types.{RequestVoteReq}
use e_roole.Raft.Wire.Vote.{
  IsVoteReq, vote_req_bytes, length-vote_req_bytes, serialize_request_vote_req,
  deserialize_request_vote_resp,
}
use e_roole.Raft.State.{Raft}
use e_roole.Raft.Handlers.{Pauses, request_vote, success, handle_request_vote}
use e_roole.Raft.Handlers.Grant.{handle_request_vote-serialized}
use e_roole.Rpc.Registry.{lookup}
use e_roole.Rpc.Server.{Calls, Server, waiting, receive_all, status_success}
use e_roole.Rpc.Server.Stream.{joined}
use e_roole.Rpc.Client.{Client, Arrival, request_message, counted}
use e_roole.Rpc.Client.Receive.{Pieces}
use e_roole.Rpc.Client.Call.{call-receive_all}
use e_roole.Raft.Client.{replied, func_id_request_vote, finish, rpc_request_vote}

-- A call of RequestVote over the network is a run of the handler's core on the peer, where the fields
-- of the request fit their types, the peer's server calls the handler, and the buffers of both sides
-- have room for the 38 bytes of the request and the 21 of the response: however the network cuts the
-- request, the peer's raft node goes to the state of `request_vote`, and however it cuts what the
-- server sends back, the caller gets the response of `request_vote` and an empty socket.
pub rpc_request_vote-request_vote :
    (calls : Calls Raft) (s : Server Raft) (c : Client) (req : RequestVoteReq) (pauses : Pauses)
    (now rand handler user_context : ℕ)
    → c.connected ≡ true
    → lookup s.registry func_id_request_vote ≡ some (handler, user_context)
    → handler ≢ 0
    → ((bytes reply : List ℕ) (after : Raft)
        → handle_request_vote s.program bytes pauses now rand ≡ (success reply, after)
        → calls.invoke handler user_context bytes s.program ≡ (status_success, reply, after))
    → IsVoteReq req
    → (request_vote s.program req pauses now rand).0.term < 2 ^ 64
    → c.next_request_id < 2 ^ 32
    → c.local_node_id < 2 ^ 16
    → 38 ≤ c.buffer_size
    → 38 ≤ s.buffer_size
    → (bs : List (List ℕ))
    → let message = request_message c func_id_request_vote (vote_req_bytes req) in
      let voted = request_vote s.program req pauses now rand in
      joined bs ≡ message.1
      → (t : Server Raft) × (sent : List ℕ) × (receive_all calls (waiting s []) bs ≡ waiting t [])
        × (t.program ≡ voted.1)
        × (t.sent ≡ sent ∷ s.sent)
        × ((socket : List Arrival)
            → Pieces socket sent
            → rpc_request_vote c req message.0 true socket ≡ record {
              client = counted c;
              message = some message.1;
              outcome = replied voted.0;
              socket = [];
            })
unfolding rpc_request_vote serialize_request_vote_req
rpc_request_vote-request_vote calls s c req pauses now rand handler user_context connected found
      real does fits small id node room size bs whole =
    let bytes = vote_req_bytes req in
    let n = length-vote_req_bytes req in
    let voted = request_vote s.program req pauses now rand in
    let (reply, runs, l, read) =
      handle_request_vote-serialized s.program req now rand pauses bytes 128 fits (omega arith) refl
        small in
    let (t, sent, served, after, out, gives) =
      call-receive_all calls s c func_id_request_vote bytes handler user_context status_success
        reply voted.1 connected found real (does bytes reply voted.1 runs) (omega (arith, n))
        (record {
          request_id = id;
          node_id = node;
          room = omega (arith, n);
          small = omega (arith, n);
        })
        (omega (arith, l)) (omega (arith, l)) bs whole in
    (
      t,
      sent,
      served,
      after,
      out,
      λ socket pieces.
          ap (finish deserialize_request_vote_resp) (gives socket pieces) ∙ (rw read refl),
    )
