-- ===== src/Raft/Handlers/Commit.antt =====
-- What the AppendEntries and InstallSnapshot handlers of raft_handlers.c do to the commit index and the role.
use e_roole.Prelude.{
  ℕ, ◌+◌, ◌%◌, ◌^◌, ◌≤◌, ◌<◌, ◌≡◌, ◌⊎◌, Bool, true, false, List, length, arith, leb, ltb, ◌&&◌,
  if◌then◌else◌,
}
use native.Mathlib.Nat.{mod-eq_of_lt}
use e_roole.Raft.Types.{Entry, AppendEntriesReq, InstallSnapshotReq}
use e_roole.Raft.State.{Raft, Persistent, become_follower, reset_election_timer}
use e_roole.Raft.Handlers.{append_entries, install_snapshot, min_of, max_of}

abbrev commit : Raft → ℕ
commit s = s.volatile_state.commit_index

-- The persistent state in the term of a request, where that is later.
abbrev pub in_term : Persistent → ℕ → Persistent
in_term p term =
    if ltb p.current_term term then record p { current_term = term; voted_for = 0 } else p

module _ (log_contains_entry : Persistent → ℕ → ℕ → Bool)
    (append_log_entries : Persistent → List Entry → ℕ → Persistent) (s : Raft)
    (req : AppendEntriesReq) (now rand : ℕ) where
  -- A request of an earlier term is refused with the node's term and changes nothing. Any other is
  -- answered with its own term, makes the sender the leader, and is accepted exactly if the log has
  -- the previous entry. One that is refused changes neither the commit index nor, but for the term
  -- and the vote that a later term sets, the persistent state. One that is accepted reports the index
  -- after the entries sent (in 64 bits) as the match index, appends the entries if there are any, and
  -- moves the commit index only if the leader's is larger, to the smaller of the leader's and the
  -- match index.
  pub append_entries-commit :
      let (resp, s') = append_entries log_contains_entry append_log_entries s req now rand in
      let p = in_term s.persistent req.term in
      let found = log_contains_entry p req.prev_log_index req.prev_log_term in
      ((req.term < s.persistent.current_term)
        × (resp ≡ record { term = s.persistent.current_term; success = false; match_index = 0 })
        × (s' ≡ s))
      ⊎ ((s.persistent.current_term ≤ req.term)
          × (resp.term ≡ req.term)
          × (resp.success ≡ found)
          × (s'.volatile_state.current_leader ≡ req.leader_id)
          × (((found ≡ false)
                × (resp.match_index ≡ 0)
                × (s'.persistent ≡ p)
                × (commit s' ≡ commit s))
              ⊎ ((found ≡ true)
                  × (resp.match_index ≡ (req.prev_log_index + length req.entries) % 2 ^ 64)
                  × (s'.persistent ≡ (
                      if ltb 0 (length req.entries)
                      then append_log_entries p req.entries req.prev_log_index
                      else p))
                  × (((req.leader_commit ≤ commit s) × (commit s' ≡ commit s))
                      ⊎ ((commit s < req.leader_commit)
                          × (commit s' ≡ min_of req.leader_commit resp.match_index))))))
  unfolding append_entries become_follower reset_election_timer
  append_entries-commit = ground arith

  -- An AppendEntries whose entries reach at least to the node's commit index, and whose last index
  -- fits 64 bits, keeps the commit index or raises it, no further than the last entry sent and no
  -- further than the leader's commit index.
  pub append_entries-commit_mono :
      req.prev_log_index + length req.entries < 2 ^ 64
      → commit s ≤ req.prev_log_index + length req.entries
      → let s' = (append_entries log_contains_entry append_log_entries s req now rand).1 in
        (commit s' ≡ commit s)
        ⊎ ((commit s ≤ commit s')
            × (commit s' ≤ req.prev_log_index + length req.entries)
            × (commit s' ≤ req.leader_commit))
  unfolding append_entries become_follower reset_election_timer
  append_entries-commit_mono fits reach = rw (mod-eq_of_lt fits, append_entries) (ground arith)

  -- An accepted AppendEntries whose entries end before the node's commit index lowers it to their
  -- end, if the leader's commit index is past the node's: the minimum is stored without a
  -- comparison with the index that it replaces.
  pub append_entries-commit_falls :
      (append_entries log_contains_entry append_log_entries s req now rand).0.success ≡ true
      → req.prev_log_index + length req.entries < commit s
      → commit s < req.leader_commit
      → commit s < 2 ^ 64
      → commit (append_entries log_contains_entry append_log_entries s req now rand).1
        ≡ req.prev_log_index + length req.entries
  unfolding append_entries become_follower reset_election_timer
  append_entries-commit_falls accepted before behind fits = ground arith

  -- An AppendEntries of the node's own term keeps the node's role, so a candidate that accepts the
  -- entries of the leader of its term goes on as a candidate.
  pub append_entries-role :
      req.term ≡ s.persistent.current_term
      → (append_entries log_contains_entry append_log_entries s req now rand).1.volatile_state.role
        ≡ s.volatile_state.role
  unfolding append_entries become_follower reset_election_timer
  append_entries-role same = ground arith

-- InstallSnapshot never lowers the commit index or the index of the last applied entry. A last
-- chunk of the node's term or a later one that is restored makes them the larger of what they were
-- and the snapshot's index, and stores the snapshot's index and term; any other request keeps all
-- four.
pub install_snapshot_mono :
    (s : Raft) (req : InstallSnapshotReq) (restored : Bool) (now rand : ℕ)
    → let s' = (install_snapshot s req restored now rand).1 in
      let v = s.volatile_state in
      let v' = s'.volatile_state in
      let installs = req.done && (restored && leb s.persistent.current_term req.term) in
      (v.commit_index ≤ v'.commit_index)
      × (v.last_applied ≤ v'.last_applied)
      × (v'.commit_index
          ≡ (if installs then max_of req.last_included_index v.commit_index else v.commit_index))
      × (v'.last_applied
          ≡ (if installs then max_of req.last_included_index v.last_applied else v.last_applied))
      × (s'.persistent.snapshot_last_index
          ≡ (if installs then req.last_included_index else s.persistent.snapshot_last_index))
      × (s'.persistent.snapshot_last_term
          ≡ (if installs then req.last_included_term else s.persistent.snapshot_last_term))
unfolding install_snapshot become_follower reset_election_timer
install_snapshot_mono s req restored now rand = ground arith
