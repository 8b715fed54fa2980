-- ===== src/Examples/Votes.antt =====
-- Votes and elections.
use e_roole.Slots.{find_slot}
use e_roole.Raft.Client.{func_id_request_vote, replied, rpc_request_vote}
use e_roole.Raft.Client.Vote.{rpc_request_vote-request_vote}
use e_roole.Rpc.Registry.{lookup}
use e_roole.Rpc.Server.{Calls, Server, waiting, receive_all, status_success}
use e_roole.Rpc.Client.{Client, Arrival, request_message, counted}
use e_roole.Rpc.Client.Receive.{Pieces}
use e_roole.Prelude.{
  [], ◌∷◌, some, ap, append-nil, ℕ, ◌+◌, ◌*◌, ◌%◌, ◌^◌, ◌<◌, ◌≡◌, ◌↔◌, refl, true, false, List,
  length, arith,
}
use e_roole.Raft.Wire.Vote.{vote_req_bytes}
use e_roole.Raft.State.{
  Raft, follower, candidate, become_follower, reset_election_timer, is_log_up_to_date,
  get_last_log_index, get_last_log_term, become_candidate, become_leader, submit_command,
}
use e_roole.Raft.State.Election.{stand, start_election, poll_peer}
use e_roole.Raft.State.Election.Majority.{start_election-majority, start_election-alone, votes_for}
use e_roole.Raft.Handlers.{
  no_pauses, adopt_term, request_vote, handle_request_vote, success, HandlerResult, bad_argument,
  internal_error, crashed,
}
use e_roole.Raft.State.Replication.{send_append_entries}
use e_roole.Raft.Handlers.Revote.{send_append_entries-revote}
use e_roole.Raft.Handlers.Grant.{MayVote, request_vote-granted_iff}
use e_roole.Raft.Handlers.OneVote.{VoteReach-one_vote, request_vote-race, here, next, votes}
use e_roole.Examples.Data.{node, voter, node_with, no_peers, vote_from, contains, append, all_grant}

VoteReach-one_vote_example : (vote_from 2 5).candidate_id ≡ 2
unfolding request_vote is_log_up_to_date get_last_log_index get_last_log_term
VoteReach-one_vote_example =
    VoteReach-one_vote contains append (λ p es prev. (refl, refl)) voter
      (request_vote voter (vote_from 3 5) no_pauses 1100 4).1 5 2 (vote_from 2 5) 1150 9
      (omega arith) refl refl (next here (votes (vote_from 3 5) 1100 4)) refl refl

request_vote-granted_iff_example :
    ((request_vote node (vote_from 2 5) no_pauses 1100 4).0.vote_granted ≡ true)
    ↔ (MayVote node (vote_from 2 5) × (is_log_up_to_date node 2 5 ≡ true))
request_vote-granted_iff_example = request_vote-granted_iff node (vote_from 2 5) 1100 4

send_append_entries-revote_example :
    let (vote, _) = request_vote node (vote_from 2 9) no_pauses 1100 4 in
    let late = send_append_entries node 0 (some 0) (λ req. record {
      reply = some (record { term = 7; success = false; match_index = 0 });
      meanwhile = λ r. (request_vote r (vote_from 2 9) no_pauses 1100 4).1;
    }) in
    let (vote_again, end) = request_vote late (vote_from 3 9) no_pauses 1100 4 in
    ((request_vote node (vote_from 2 9) no_pauses 1100 4).1.persistent.voted_for ≡ 2)
    × (vote.vote_granted ≡ true)
    × (late.persistent.current_term ≡ 7)
    × (vote_again.vote_granted ≡ true)
    × (vote_again.term ≡ vote.term)
    × (end.persistent.voted_for ≡ 3)
unfolding is_log_up_to_date get_last_log_index get_last_log_term
send_append_entries-revote_example =
    send_append_entries-revote node 0 0
      (λ req. some (record { term = 7; success = false; match_index = 0 }))
      (record { term = 7; success = false; match_index = 0 }) (vote_from 2 9) (vote_from 3 9) 1100 4
      refl (omega arith) (omega arith) refl refl refl

request_vote-race_example :
    let s1 = adopt_term node 7 (λ r. r) in
    let (second, s2) = request_vote s1 (vote_from 3 7) no_pauses 1100 4 in
    let (first, s3) =
      request_vote node
        (vote_from 2 7)
        (record { stepping_down = λ r. r; checking = λ _. s2 })
        1100
        4 in
    (second.vote_granted ≡ true)
    × (first.vote_granted ≡ true)
    × (s2.persistent.voted_for ≡ 3)
    × (s3.persistent.voted_for ≡ 2)
    × (s3.persistent.current_term ≡ 7)
unfolding is_log_up_to_date get_last_log_index get_last_log_term
request_vote-race_example =
    request_vote-race node (vote_from 2 7) (vote_from 3 7) 1100 4 (omega arith) refl refl refl

start_election-majority_example : 2 + 1 < 2 * (1 + votes_for node 1100 4 all_grant)
unfolding start_election become_leader become_candidate reset_election_timer poll_peer
    submit_command
start_election-majority_example = start_election-majority node 1100 4 all_grant (λ i s h. h) refl

start_election-alone_example :
    let alone = node_with follower 0 no_peers in
    (start_election alone 1100 4 all_grant ≡ stand alone 1100 4)
    × ((stand alone 1100 4).volatile_state.role ≡ candidate)
    × ((stand alone 1100 4).persistent.current_term ≡ (5 + 1) % 2 ^ 64)
    × ((stand alone 1100 4).persistent.voted_for ≡ 1)
start_election-alone_example =
    start_election-alone (node_with follower 0 no_peers) 1100 4 all_grant tt

abbrev as_call : HandlerResult × Raft → ℕ × List ℕ × Raft
as_call (success reply, s) = (status_success, reply, s)
as_call (bad_argument, s) = (1, [], s)
as_call (internal_error, s) = (3, [], s)
as_call (crashed, s) = (3, [], s)

-- The server of the node, which has one handler.
abbrev raft_calls : Calls Raft
raft_calls = record {
  invoke = λ handler user_context bytes s. as_call (handle_request_vote s bytes no_pauses 1100 4);
  accepts = λ message. length message;
}

abbrev raft_server : Server Raft
raft_server = record {
  registry = record {
    handlers = record { func_id = 64; handler = 500; user_context = 9; active = true } ∷ [];
    count = 1;
  };
  buffer_size = 100;
  requests_received = 0;
  requests_processed = 0;
  requests_failed = 0;
  bytes_received = 0;
  bytes_sent = 0;
  program = node;
  sent = [];
}

abbrev caller : Client
caller = record { connected = true; next_request_id = 1; local_node_id = 2; buffer_size = 100 }

abbrev vote_message : ℕ × List ℕ
vote_message = request_message caller func_id_request_vote (vote_req_bytes (vote_from 2 7))

rpc_request_vote-request_vote_example :
    (t : Server Raft) × (sent : List ℕ) × (receive_all raft_calls
        (waiting raft_server [])
        (vote_message.1 ∷ [])
      ≡ waiting t [])
    × (t.program ≡ (request_vote node (vote_from 2 7) no_pauses 1100 4).1)
    × (t.sent ≡ sent ∷ [])
    × ((socket : List Arrival)
        → Pieces socket sent
        → rpc_request_vote caller (vote_from 2 7) vote_message.0 true socket ≡ record {
          client = counted caller;
          message = some vote_message.1;
          outcome = replied (request_vote node (vote_from 2 7) no_pauses 1100 4).0;
          socket = [];
        })
unfolding request_vote become_follower lookup find_slot
rpc_request_vote-request_vote_example =
    rpc_request_vote-request_vote raft_calls raft_server caller (vote_from 2 7) no_pauses 1100 4 500
      9 refl refl (λ h. absurd (omega arith)) (λ bytes reply after e. ap as_call e)
      (omega arith, omega arith, omega arith, omega arith) (omega arith) (omega arith) (omega arith)
      (omega arith) (omega arith) (vote_message.1 ∷ []) (append-nil vote_message.1)
