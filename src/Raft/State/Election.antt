-- ===== src/Raft/State/Election.antt =====
-- start_election of raft_state.c: the candidate asks its peers one after the other. While a
-- request is under way other threads may change the state; `meanwhile` is what they do.
pub mod Majority
use e_roole.Prelude.{
  ℕ, ◌+◌, ◌/◌, Bool, true, false, not, ◌&&◌, List, [], ◌∷◌, Option, none, some, take, ltb, leb,
  ◌==◌, if◌then◌else◌,
}
use e_roole.Raft.Types.{RequestVoteReq, RequestVoteResp}
use e_roole.Raft.State.{
  Raft, Role, candidate, is_candidate_role, tick, become_follower, become_candidate, become_leader,
  reset_election_timer, get_last_log_index, get_last_log_term,
}

-- One raft_rpc_request_vote: the response, `none` where the status is not RPC_STATUS_SUCCESS, what
-- happened before it came, and the time when it is handled.
pub record VoteCall : Type 0 where
  pub reply : Option RequestVoteResp
  pub meanwhile : Raft → Raft
  pub now : ℕ

-- What the loop does after a peer: go on with a count of votes, or leave.
pub data Next : Type 0 where
  go_on : Raft → ℕ → Next
  stop : Raft → Next

unfoldable pub count_vote : ℕ → ℕ → ℕ → Raft → Next
count_vote majority now votes s =
    let votes' = votes + 1 in
    let s' = record s {
      stats = record (s.stats) { votes_received = tick s.stats.votes_received };
    } in
    if leb majority votes'
    then stop (
        become_leader
          (record s' { stats = record (s'.stats) { elections_won = tick s'.stats.elections_won } })
          now)
    else go_on s' votes'

-- The body of the loop for a peer that has a client.
unfoldable pub poll_peer : ℕ → ℕ → VoteCall → ℕ → Raft → Next
unfolding count_vote
poll_peer term majority call votes s0 =
    let s = call.meanwhile s0 in
    elim call.reply [
      | none ↦ go_on s votes
      | some resp ↦
          if is_candidate_role s.volatile_state.role && s.persistent.current_term == term
          then (if ltb term resp.term
              then stop (become_follower s resp.term)
              else (if resp.vote_granted
                  then count_vote majority call.now votes s
                  else go_on
                      (record s {
                        stats = record (s.stats) { votes_rejected = tick s.stats.votes_rejected };
                      })
                      votes))
          else stop s
    ]

-- The loop over `peer_clients[i]`; `net i` answers the request to peer `i`.
unfoldable pub collect_votes : ℕ → ℕ → (ℕ → VoteCall) → List (Option ℕ) → ℕ → ℕ → Raft → Raft
collect_votes term majority net [] i votes s = s
collect_votes term majority net (none ∷ cs) i votes s =
    collect_votes term majority net cs (i + 1) votes s
collect_votes term majority net (some c ∷ cs) i votes s =
    elim (poll_peer term majority (net i) votes s) [
      | go_on s' votes' ↦ collect_votes term majority net cs (i + 1) votes' s'
      | stop s' ↦ s'
    ]

abbrev pub majority_of : ℕ → ℕ
majority_of peer_count = (peer_count + 1) / 2 + 1

-- The state when the first request is sent.
unfoldable pub stand : Raft → ℕ → ℕ → Raft
stand s now rand =
    let s1 = become_candidate s in
    let s2 = record s1 {
      persistent = record (s1.persistent) {
        current_term = tick s1.persistent.current_term;
        voted_for = s1.my_id;
      };
    } in
    let s3 = reset_election_timer s2 now rand in
    record s3 { stats = record (s3.stats) { elections_started = tick s3.stats.elections_started } }

unfoldable pub vote_request : Raft → RequestVoteReq
vote_request s = record {
  term = s.persistent.current_term;
  candidate_id = s.my_id;
  last_log_index = get_last_log_index s.persistent;
  last_log_term = get_last_log_term s.persistent;
}

-- `net` is the network: what comes of the request to peer `i`.
unfoldable pub start_election : Raft → ℕ → ℕ → (ℕ → RequestVoteReq → VoteCall) → Raft
unfolding stand vote_request collect_votes
start_election s now rand net =
    let s' = stand s now rand in
    let req = vote_request s' in
    let t = s'.leader_state in
    collect_votes req.term (majority_of t.peer_count) (λ i. net i req) (take t.peer_count t.clients)
      0 1 s'
