-- ===== src/Raft/State/Local.antt =====
-- What a node does by itself: the functions of raft_state.c, without the handlers of
-- raft_handlers.c, and the commit index across them.
use e_roole.Prelude.{
  ℕ, suc, ◌+◌, ◌-◌, ◌^◌, ◌≤◌, ◌<◌, ◌≡◌, refl, ◌∙◌, List, [], ◌∷◌, Option, none, some, take, arith,
  inl, inr, Option-cases, get_elem?, zero,
}
use e_roole.Raft.Types.{Entry, RequestVoteReq, AppendEntriesReq}
use e_roole.Raft.State.{
  Raft, become_follower, become_leader, submit_command, become_candidate, reset_election_timer,
  get_last_log_index,
}
use e_roole.Raft.State.Election.{
  VoteCall, Next, go_on, stop, count_vote, poll_peer, collect_votes, stand, start_election,
  vote_request, majority_of,
}
use e_roole.Raft.State.Replication.{
  AppendCall, append_request, send_append_entries, send_to_all, heartbeat_round,
}
use e_roole.Raft.State.Apply.{apply_entry, set_last_applied, apply_rounds, apply_committed}

abbrev pub commit : Raft → ℕ
commit s = s.volatile_state.commit_index

-- What other threads do keeps the commit index.
abbrev pub KeepsCommit : (Raft → Raft) → Type 0
KeepsCommit f = (r : Raft) → commit (f r) ≡ commit r

commit-submit_command :
    (s : Raft) (command : List ℕ) (now : ℕ) → commit (submit_command s command now).1 ≡ commit s
unfolding submit_command
commit-submit_command s command now = ground arith

abbrev next_commit : Next → ℕ
next_commit (go_on s v) = commit s
next_commit (stop s) = commit s

commit-poll_peer :
    (term majority : ℕ) (call : VoteCall) (votes : ℕ) (s : Raft)
    → commit (call.meanwhile s) ≡ commit s
    → next_commit (poll_peer term majority call votes s) ≡ commit s
unfolding poll_peer count_vote become_leader submit_command become_follower
commit-poll_peer term majority call votes s h = ground arith

after_round :
    (next : Next) (rest : Raft → ℕ → Raft) (k : ℕ)
    → next_commit next ≡ k
    → ((s : Raft) (v : ℕ) → commit (rest s v) ≡ commit s)
    → commit (elim next as (λ _. Raft) [ go_on s v ↦ rest s v | stop s ↦ s ]) ≡ k
after_round (go_on s v) rest k h r = r s v ∙ h
after_round (stop s) rest k h r = h

commit-collect_votes :
    (term majority : ℕ) (net : ℕ → VoteCall) (cs : List (Option ℕ)) (i votes : ℕ) (s : Raft)
    → ((j : ℕ) → KeepsCommit (net j).meanwhile)
    → commit (collect_votes term majority net cs i votes s) ≡ commit s
unfolding collect_votes
commit-collect_votes term majority net [] i votes s q = refl
commit-collect_votes term majority net (none ∷ cs) i votes s q =
    commit-collect_votes term majority net cs (i + 1) votes s q
commit-collect_votes term majority net (some c ∷ cs) i votes s q =
    after_round (poll_peer term majority (net i) votes s)
      (λ s' v. collect_votes term majority net cs (i + 1) v s') (commit s)
      (commit-poll_peer term majority (net i) votes s (q i s))
      (λ s' v. commit-collect_votes term majority net cs (i + 1) v s' q)

commit-start_election :
    (s : Raft) (now rand : ℕ) (net : ℕ → RequestVoteReq → VoteCall)
    → ((i : ℕ) (req : RequestVoteReq) → KeepsCommit (net i req).meanwhile)
    → commit (start_election s now rand net) ≡ commit s
unfolding start_election stand become_candidate reset_election_timer
commit-start_election s now rand net q =
    let s' = stand s now rand in
    let req = vote_request s' in
    let t = s'.leader_state in
    commit-collect_votes req.term (majority_of t.peer_count) (λ i. net i req)
      (take t.peer_count t.clients) 0 1 s' (λ j. q j req)

commit-send_append_entries :
    (s : Raft) (i : ℕ) (c : Option ℕ) (net : AppendEntriesReq → AppendCall)
    → ((req : AppendEntriesReq) → KeepsCommit (net req).meanwhile)
    → commit (send_append_entries s i c net) ≡ commit s
unfolding send_append_entries become_follower
commit-send_append_entries s i none net q = refl
commit-send_append_entries s i (some c) net q = ground (arith, q (append_request s i) s)

commit-send_to_all :
    (cs : List (Option ℕ)) (i : ℕ) (net : ℕ → AppendEntriesReq → AppendCall) (s : Raft)
    → ((j : ℕ) (req : AppendEntriesReq) → KeepsCommit (net j req).meanwhile)
    → commit (send_to_all cs i net s) ≡ commit s
unfolding send_to_all
commit-send_to_all [] i net s q = refl
commit-send_to_all (c ∷ cs) i net s q =
    commit-send_to_all cs (i + 1) net (send_append_entries s i c (net i)) q
    ∙ commit-send_append_entries s i c (net i) (q i)

commit-heartbeat_round :
    (s : Raft) (net : ℕ → AppendEntriesReq → AppendCall)
    → ((j : ℕ) (req : AppendEntriesReq) → KeepsCommit (net j req).meanwhile)
    → commit (heartbeat_round s net) ≡ commit s
unfolding heartbeat_round
commit-heartbeat_round s net q =
    ground
      (arith, commit-send_to_all (take s.leader_state.peer_count s.leader_state.clients) 0 net s q)

module _ {D : Type 0} (on_apply : Option (Entry → D → D)) where
  commit-apply_entry :
      (e : Entry) (i : ℕ) (s : Raft) (d : D)
      → commit (set_last_applied on_apply i (apply_entry on_apply e (s, d))).0 ≡ commit s
  unfolding apply_entry set_last_applied
  commit-apply_entry e i s d = ground arith

  commit-apply_rounds :
      (n i : ℕ) (s : Raft) (d : D) → commit (apply_rounds on_apply n i (s, d)).0 ≡ commit s
  unfolding apply_rounds
  commit-apply_rounds zero i s d = refl
  commit-apply_rounds (suc n) i s d = elim (Option-cases (get_elem? s.persistent.log (i - 1))) [
    | inl e ↦ rw (e, apply_rounds) refl
    | inr (x, e) ↦
        rw (e, apply_rounds)
          (let (s', d') = set_last_applied on_apply i (apply_entry on_apply x (s, d)) in
            commit-apply_rounds n (i + 1) s' d' ∙ commit-apply_entry x i s d)
  ]

  commit-apply_committed :
      (s : Raft) (d : D) → commit (apply_committed on_apply (s, d)).0 ≡ commit s
  unfolding apply_committed
  commit-apply_committed s d =
      let v = s.volatile_state in
      ground (arith, commit-apply_rounds (v.commit_index - v.last_applied) (v.last_applied + 1) s d)

  -- A step that the node takes by itself: a client's command, an election, a round of heartbeats
  -- or of the apply thread.
  pub data LocalStep (s : Raft) : Raft → Type 0 where
    submits : (command : List ℕ) (now : ℕ) → LocalStep s (submit_command s command now).1
    elects :
        (now rand : ℕ) (net : ℕ → RequestVoteReq → VoteCall)
        → ((i : ℕ) (req : RequestVoteReq) → KeepsCommit (net i req).meanwhile)
        → LocalStep s (start_election s now rand net)
    beats :
        (net : ℕ → AppendEntriesReq → AppendCall)
        → ((j : ℕ) (req : AppendEntriesReq) → KeepsCommit (net j req).meanwhile)
        → LocalStep s (heartbeat_round s net)
    applies : (d : D) → LocalStep s (apply_committed on_apply (s, d)).0

  pub data LocalReach (s : Raft) : Raft → Type 0 where
    here : LocalReach s s
    next : {t u : Raft} → LocalReach s t → LocalStep t u → LocalReach s u

  LocalStep-commit : {s t : Raft} → LocalStep s t → commit t ≡ commit s
  LocalStep-commit {s} (submits command now) = commit-submit_command s command now
  LocalStep-commit {s} (elects now rand net q) = commit-start_election s now rand net q
  LocalStep-commit {s} (beats net q) = commit-heartbeat_round s net q
  LocalStep-commit {s} (applies d) = commit-apply_committed s d

  pub LocalReach-commit : {s t : Raft} → LocalReach s t → commit t ≡ commit s
  LocalReach-commit here = refl
  LocalReach-commit (next r st) = LocalStep-commit st ∙ LocalReach-commit r

  -- A command that a leader accepts is never committed by what the leader does itself: however
  -- many commands, elections, heartbeats and apply rounds follow, with whatever responses, the
  -- commit index stays below the command's index. The conditions are that the commit index was
  -- within the log, that the indices do not wrap, and that other threads keep the commit index.
  pub submit_command-uncommitted :
      (s t : Raft) (command : List ℕ) (now index term : ℕ)
      → commit s ≤ get_last_log_index s.persistent
      → get_last_log_index s.persistent + 1 < 2 ^ 64
      → (submit_command s command now).0 ≡ some (index, term)
      → LocalReach (submit_command s command now).1 t
      → commit t < index
  unfolding submit_command
  submit_command-uncommitted s t command now index term inside small accepted reach =
      ground (arith, LocalReach-commit reach, commit-submit_command s command now)
