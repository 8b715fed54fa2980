-- ===== src/Raft/State/Election/Majority.antt =====
-- Who wins the election that start_election of raft_state.c holds.
use e_roole.Prelude.{
  ℕ, ◌+◌, ◌*◌, ◌≤◌, ◌<◌, ◌≡◌, refl, ap, ◌%◌, ◌^◌, true, false, ◌&&◌, not, List, [], ◌∷◌, Option,
  none, some, take, ltb, if◌then◌else◌, arith, All,
}
use e_roole.Raft.Types.{RequestVoteReq, RequestVoteResp}
use e_roole.Raft.State.{
  Raft, candidate, leader, become_leader, submit_command, become_follower, is_leader_role,
  become_candidate, reset_election_timer,
}
use e_roole.Raft.State.Election.{
  VoteCall, Next, go_on, stop, count_vote, poll_peer, collect_votes, majority_of, stand,
  vote_request, start_election,
}

-- A response that grants the vote and does not name a later term.
abbrev pub grant : ℕ → Option RequestVoteResp → ℕ
grant term none = 0
grant term (some resp) = if resp.vote_granted && not (ltb term resp.term) then 1 else 0

-- How many connected peers granted their vote, counted from peer `i` on.
abbrev pub granted : ℕ → (ℕ → VoteCall) → List (Option ℕ) → ℕ → ℕ
granted term net [] i = 0
granted term net (none ∷ cs) i = granted term net cs (i + 1)
granted term net (some c ∷ cs) i = grant term (net i).reply + granted term net cs (i + 1)

-- Other threads do not make the node a leader: only start_election calls become_leader.
abbrev pub NoCoup : (ℕ → VoteCall) → Type 0
NoCoup net =
    (i : ℕ) (s : Raft)
    → is_leader_role s.volatile_state.role ≡ false
    → is_leader_role ((net i).meanwhile s).volatile_state.role ≡ false

-- What one round may lead to.
abbrev Polled : ℕ → ℕ → ℕ → Next → Type 0
Polled majority votes g (go_on s v) =
    (is_leader_role s.volatile_state.role ≡ false) × (v ≡ votes + g)
Polled majority votes g (stop s) =
    is_leader_role s.volatile_state.role ≡ true → majority ≤ votes + g

poll_peer-Polled :
    (term majority votes : ℕ) (call : VoteCall) (s : Raft)
    → is_leader_role (call.meanwhile s).volatile_state.role ≡ false
    → Polled majority votes (grant term call.reply) (poll_peer term majority call votes s)
unfolding poll_peer count_vote become_leader submit_command become_follower
poll_peer-Polled term majority votes call s h = ground arith

-- The loop goes on with what a round hands over, if the rest of the peers keeps the bound.
after_round :
    (majority votes g total : ℕ) (next : Next) (rest : Raft → ℕ → Raft)
    → Polled majority votes g next
    → ((s : Raft) (v : ℕ)
        → is_leader_role s.volatile_state.role ≡ false
        → is_leader_role (rest s v).volatile_state.role ≡ true
        → majority ≤ v + total)
    → is_leader_role
        (elim next as (λ _. Raft) [ go_on s v ↦ rest s v | stop s ↦ s ]).volatile_state.role
      ≡ true
    → majority ≤ votes + (g + total)
after_round majority votes g total (go_on s v) rest p k h = omega (arith, k s v p.0 h)
after_round majority votes g total (stop s) rest p k h = omega (arith, p h)

collect_votes-leader :
    (term majority : ℕ) (net : ℕ → VoteCall) (cs : List (Option ℕ)) (i votes : ℕ) (s : Raft)
    → NoCoup net
    → is_leader_role s.volatile_state.role ≡ false
    → is_leader_role (collect_votes term majority net cs i votes s).volatile_state.role ≡ true
    → majority ≤ votes + granted term net cs i
unfolding collect_votes
collect_votes-leader term majority net [] i votes s quiet f h = cc
collect_votes-leader term majority net (none ∷ cs) i votes s quiet f h =
    collect_votes-leader term majority net cs (i + 1) votes s quiet f h
collect_votes-leader term majority net (some c ∷ cs) i votes s quiet f h =
    after_round majority votes (grant term (net i).reply) (granted term net cs (i + 1))
      (poll_peer term majority (net i) votes s)
      (λ s' v. collect_votes term majority net cs (i + 1) v s')
      (poll_peer-Polled term majority votes (net i) s (quiet i s f))
      (λ s' v f' h'. collect_votes-leader term majority net cs (i + 1) v s' quiet f' h') h

-- The answers that a node gets when it stands for election at time `now`.
abbrev pub answers : Raft → ℕ → ℕ → (ℕ → RequestVoteReq → VoteCall) → ℕ → VoteCall
answers s now rand net i = net i (vote_request (stand s now rand))

-- How many of its connected peers grant the vote to a node that stands for election.
abbrev pub votes_for : Raft → ℕ → ℕ → (ℕ → RequestVoteReq → VoteCall) → ℕ
votes_for s now rand net =
    granted (vote_request (stand s now rand)).term (answers s now rand net)
      (take s.leader_state.peer_count s.leader_state.clients) 0

-- An election that ends with the node as leader had the votes of more than half of the cluster:
-- twice the node's own vote and those of the peers that granted theirs, with no later term in the
-- response, exceeds the number of nodes, the node and its peers. The condition is that no other
-- thread makes the node a leader while the requests are under way.
pub start_election-majority :
    (s : Raft) (now rand : ℕ) (net : ℕ → RequestVoteReq → VoteCall)
    → NoCoup (answers s now rand net)
    → (start_election s now rand net).volatile_state.role ≡ leader
    → s.leader_state.peer_count + 1 < 2 * (1 + votes_for s now rand net)
unfolding start_election vote_request stand become_candidate reset_election_timer
start_election-majority s now rand net quiet h =
    let s' = stand s now rand in
    let t = s.leader_state in
    omega (
      arith,
      collect_votes-leader (vote_request s').term (majority_of t.peer_count)
          (answers s now rand net) (take t.peer_count t.clients) 0 1 s' quiet refl
          (ap is_leader_role h),
    )

collect_votes-alone :
    (term majority : ℕ) (net : ℕ → VoteCall) (cs : List (Option ℕ)) (i votes : ℕ) (s : Raft)
    → All (λ c. c ≡ none) cs
    → collect_votes term majority net cs i votes s ≡ s
unfolding collect_votes
collect_votes-alone term majority net [] i votes s h = refl
collect_votes-alone term majority net (none ∷ cs) i votes s h =
    collect_votes-alone term majority net cs (i + 1) votes s h.1
collect_votes-alone term majority net (some c ∷ cs) i votes s h = cc (h.0)

-- A node without a connected peer never wins: whatever its state, it is a candidate after the
-- election, in the next term, with its own vote, and the loop over the peers changes nothing.
pub start_election-alone :
    (s : Raft) (now rand : ℕ) (net : ℕ → RequestVoteReq → VoteCall)
    → All (λ c. c ≡ none) (take s.leader_state.peer_count s.leader_state.clients)
    → (start_election s now rand net ≡ stand s now rand)
      × ((stand s now rand).volatile_state.role ≡ candidate)
      × ((stand s now rand).persistent.current_term ≡ (s.persistent.current_term + 1) % 2 ^ 64)
      × ((stand s now rand).persistent.voted_for ≡ s.my_id)
unfolding start_election vote_request stand become_candidate reset_election_timer
start_election-alone s now rand net h = (collect_votes-alone _ _ _ _ 0 1 _ h, refl, refl, refl)
