-- ===== src/Raft/Handlers/OneVote.antt =====
-- The vote of a term, across the handlers of raft_handlers.c and the elections of raft_state.c.
use e_roole.Prelude.{ℕ, ◌+◌, ◌^◌, ◌<◌, ◌≡◌, ◌≢◌, ◌⊎◌, Bool, true, List, inr, arith}
use e_roole.Raft.Types.{Entry, RequestVoteReq, AppendEntriesReq, InstallSnapshotReq}
use e_roole.Raft.State.{
  Raft, Persistent, become_follower, become_candidate, reset_election_timer, is_log_up_to_date,
}
use e_roole.Raft.State.Election.{stand}
use e_roole.Raft.Handlers.{no_pauses, adopt_term, request_vote, append_entries, install_snapshot}
use e_roole.Raft.Handlers.Grant.{request_vote-granted_iff, is_log_up_to_date-adopt_term}

-- In term `term` the node's vote is `c`, or the node is past that term.
abbrev pub Settled : ℕ → ℕ → Raft → Type 0
Settled term c s =
    (term < s.persistent.current_term)
    ⊎ ((s.persistent.current_term ≡ term) × (s.persistent.voted_for ≡ c))

module _ (log_contains_entry : Persistent → ℕ → ℕ → Bool)
    (append_log_entries : Persistent → List Entry → ℕ → Persistent) where
  -- What changes the term or the vote: the handlers, with no other thread in their pauses, the
  -- start of an election, and stepping down at the sight of a later term.
  pub data VoteStep (s : Raft) : Raft → Type 0 where
    votes :
        (req : RequestVoteReq) (now rand : ℕ) → VoteStep s (request_vote s req no_pauses now rand).1
    appends :
        (req : AppendEntriesReq) (now rand : ℕ)
        → VoteStep s (append_entries log_contains_entry append_log_entries s req now rand).1
    installs :
        (req : InstallSnapshotReq) (restored : Bool) (now rand : ℕ)
        → VoteStep s (install_snapshot s req restored now rand).1
    stands : (now rand : ℕ) → s.persistent.current_term + 1 < 2 ^ 64 → VoteStep s (stand s now rand)
    steps_down : (term : ℕ) → s.persistent.current_term < term → VoteStep s (become_follower s term)

  pub data VoteReach (s : Raft) : Raft → Type 0 where
    here : VoteReach s s
    next : {t u : Raft} → VoteReach s t → VoteStep t u → VoteReach s u

  module _
      (append_keeps_vote : (p : Persistent) (es : List Entry) (prev : ℕ)
        → ((append_log_entries p es prev).current_term ≡ p.current_term)
          × ((append_log_entries p es prev).voted_for ≡ p.voted_for)) where
    VoteStep-Settled :
        {s t : Raft} (term c : ℕ) → c ≢ 0 → VoteStep s t → Settled term c s → Settled term c t
    unfolding request_vote append_entries install_snapshot stand become_follower become_candidate
        reset_election_timer
    VoteStep-Settled {s} term c nz (votes req now rand) h = ground arith
    VoteStep-Settled {s} term c nz (appends req now rand) h =
        let s1 = adopt_term s req.term (λ r. r) in
        ground (arith, append_keeps_vote s1.persistent req.entries req.prev_log_index)
    VoteStep-Settled {s} term c nz (installs req restored now rand) h = ground arith
    VoteStep-Settled {s} term c nz (stands now rand fits) h = ground arith
    VoteStep-Settled {s} term c nz (steps_down later l) h = ground arith

    VoteReach-Settled :
        {s t : Raft} (term c : ℕ) → c ≢ 0 → Settled term c s → VoteReach s t → Settled term c t
    VoteReach-Settled term c nz h here = h
    VoteReach-Settled term c nz h (next r st) =
        VoteStep-Settled term c nz st (VoteReach-Settled term c nz h r)

    -- A node that has granted its vote to a candidate, or stood itself, in some term grants no
    -- other candidate its vote in that term, whatever requests, elections and later terms come in
    -- between. The conditions: the first candidate's id is not 0, which stands for no vote, the
    -- terms do not wrap, no other thread is at work in a handler's pauses, and append_log_entries
    -- keeps the term and the vote.
    pub VoteReach-one_vote :
        (s t : Raft) (term c : ℕ) (req : RequestVoteReq) (now rand : ℕ)
        → c ≢ 0
        → s.persistent.current_term ≡ term
        → s.persistent.voted_for ≡ c
        → VoteReach s t
        → (request_vote t req no_pauses now rand).0.vote_granted ≡ true
        → req.term ≡ term
        → req.candidate_id ≡ c
    VoteReach-one_vote s t term c req now rand nz at voted reach granted same = ground (
      arith,
      VoteReach-Settled {s = s} {t = t} term c nz (inr (at, voted)) reach,
      (request_vote-granted_iff t req now rand).0 granted,
    )

-- In the pause between the check of a vote and its storing, the check can be made again for
-- another candidate: whenever two candidates ask for the vote of a term later than the node's and
-- both logs pass, handling the second request in that pause of the first grants both.
pub request_vote-race :
    (s : Raft) (a b : RequestVoteReq) (now rand : ℕ)
    → s.persistent.current_term < a.term
    → b.term ≡ a.term
    → is_log_up_to_date s a.last_log_index a.last_log_term ≡ true
    → is_log_up_to_date s b.last_log_index b.last_log_term ≡ true
    → let s1 = adopt_term s a.term (λ r. r) in
      let (second, s2) = request_vote s1 b no_pauses now rand in
      let (first, s3) =
        request_vote s a (record { stepping_down = λ r. r; checking = λ _. s2 }) now rand in
      (second.vote_granted ≡ true)
      × (first.vote_granted ≡ true)
      × (s2.persistent.voted_for ≡ b.candidate_id)
      × (s3.persistent.voted_for ≡ a.candidate_id)
      × (s3.persistent.current_term ≡ a.term)
unfolding request_vote become_follower reset_election_timer
request_vote-race s a b now rand later same la lb = ground (
  arith,
  is_log_up_to_date-adopt_term s a.term a.last_log_index a.last_log_term,
  is_log_up_to_date-adopt_term s a.term b.last_log_index b.last_log_term,
)
