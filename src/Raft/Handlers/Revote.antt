-- ===== src/Raft/Handlers/Revote.antt =====
-- A late AppendEntries response and the votes of the node: send_append_entries_to_peer of
-- raft_state.c together with the RequestVote handler of raft_handlers.c.
use e_roole.Prelude.{ℕ, ◌<◌, ◌≡◌, true, Option, some, inl, arith}
use e_roole.Raft.Types.{AppendEntriesReq, AppendEntriesResp, RequestVoteReq}
use e_roole.Raft.State.{
  Raft, become_follower, reset_election_timer, is_log_up_to_date, get_last_log_index,
  get_last_log_term,
}
use e_roole.Raft.State.Replication.{AppendCall, append_request, send_append_entries}
use e_roole.Raft.Handlers.{no_pauses, request_vote}
use e_roole.Raft.Handlers.Grant.{request_vote-granted_iff, request_vote-stores}

module _ (s : Raft) (first : RequestVoteReq) (now rand : ℕ) where
  request_vote-log :
      (i l : ℕ)
      → is_log_up_to_date (request_vote s first no_pauses now rand).1 i l ≡ is_log_up_to_date s i l
  unfolding request_vote become_follower reset_election_timer is_log_up_to_date get_last_log_index
      get_last_log_term
  request_vote-log i l = ground arith

  after_late :
      (i c : ℕ) (reply : AppendEntriesReq → Option AppendEntriesResp) (resp : AppendEntriesResp)
      (j l : ℕ)
      → reply (append_request s i) ≡ some resp
      → s.persistent.current_term < resp.term
      → let waiting : Raft → Raft = λ r. (request_vote r first no_pauses now rand).1 in
        let late =
          send_append_entries s i
            (some c)
            (λ req. record { reply = reply req; meanwhile = waiting }) in
        (late.persistent.current_term ≡ resp.term)
        × (is_log_up_to_date late j l ≡ is_log_up_to_date s j l)
  unfolding send_append_entries become_follower is_log_up_to_date get_last_log_index
      get_last_log_term
  after_late i c reply resp j l e later = let same = request_vote-log j l in ground (arith, same)

-- A node sends an AppendEntries request and, while it waits, handles the RequestVote `first` of a
-- term later than the response's, which is later than its own; the response then arrives, and after
-- it the RequestVote `second` of the same term as `first`. Where the node's log lets it vote for
-- both candidates, it does: the response takes it back to an earlier term, and it grants both
-- votes, also to different candidates.
pub send_append_entries-revote :
    (s : Raft) (i c : ℕ) (reply : AppendEntriesReq → Option AppendEntriesResp)
    (resp : AppendEntriesResp) (first second : RequestVoteReq) (now rand : ℕ)
    → reply (append_request s i) ≡ some resp
    → s.persistent.current_term < resp.term
    → resp.term < first.term
    → second.term ≡ first.term
    → is_log_up_to_date s first.last_log_index first.last_log_term ≡ true
    → is_log_up_to_date s second.last_log_index second.last_log_term ≡ true
    → let (vote, _) = request_vote s first no_pauses now rand in
      let waiting : Raft → Raft = λ r. (request_vote r first no_pauses now rand).1 in
      let net : AppendEntriesReq → AppendCall =
        λ req. record { reply = reply req; meanwhile = waiting } in
      let late = send_append_entries s i (some c) net in
      let (vote_again, end) = request_vote late second no_pauses now rand in
      ((waiting s).persistent.voted_for ≡ first.candidate_id)
      × (vote.vote_granted ≡ true)
      × (late.persistent.current_term ≡ resp.term)
      × (vote_again.vote_granted ≡ true)
      × (vote_again.term ≡ vote.term)
      × (end.persistent.voted_for ≡ second.candidate_id)
send_append_entries-revote s i c reply resp first second now rand e sent later same a b =
    let granted = (request_vote-granted_iff s first now rand).1 (inl (omega arith), a) in
    let (_, stored, t1) = request_vote-stores s first now rand granted in
    let waiting : Raft → Raft = λ r. (request_vote r first no_pauses now rand).1 in
    let late =
      send_append_entries s i (some c) (λ req. record { reply = reply req; meanwhile = waiting }) in
    let (back, log) =
      after_late s first now rand i c reply resp second.last_log_index second.last_log_term e
        sent in
    let again = (request_vote-granted_iff late second now rand).1 (inl (omega arith), cc) in
    let (_, stored_again, t2) = request_vote-stores late second now rand again in
    (stored, granted, back, again, cc, stored_again)
