-- ===== src/Raft/Handlers.antt =====
-- src/raft/rpc/raft_handlers.c. A handler gives the locks back between its steps; what other
-- threads do in such a pause is an argument. Log messages and the freeing of memory are left out.
-- log_contains_entry and append_log_entries are declared there and defined nowhere in the
-- repository: they are the parameters `log_contains_entry` and `append_log_entries`.
pub mod Grant
pub mod OneVote
pub mod Commit
pub mod Revote
use e_roole.Prelude.{
  ℕ, ◌+◌, ◌%◌, ◌^◌, Bool, true, false, ◌||◌, List, [], Option, none, some, length, ltb, leb, ◌==◌,
  if◌then◌else◌,
}
use e_roole.Wire.Reader.{Parsed, ok, fail, fault}
use e_roole.Raft.Types.{
  Entry, RequestVoteReq, RequestVoteResp, AppendEntriesReq, AppendEntriesResp, InstallSnapshotReq,
  InstallSnapshotResp,
}
use e_roole.Raft.Wire.Vote.{deserialize_request_vote_req, serialize_request_vote_resp}
use e_roole.Raft.Wire.Append.{deserialize_append_entries_req, serialize_append_entries_resp}
use e_roole.Raft.Wire.Snapshot.{deserialize_install_snapshot_req, serialize_install_snapshot_resp}
use e_roole.Raft.State.{Raft, Persistent, become_follower, reset_election_timer, is_log_up_to_date}

-- What other threads do while the handler holds no lock.
pub record Pauses : Type 0 where
  pub stepping_down : Raft → Raft
  pub checking : Raft → Raft

abbrev pub no_pauses : Pauses
no_pauses = record { stepping_down = λ s. s; checking = λ s. s }

-- Rule 1 of each handler: a later term makes the node a follower of that term.
unfoldable pub adopt_term : Raft → ℕ → (Raft → Raft) → Raft
adopt_term s term stepping_down =
    if ltb s.persistent.current_term term
    then become_follower
        (stepping_down
          (record s { persistent = record (s.persistent) { current_term = term; voted_for = 0 } }))
        term
    else s

-- Rule 3 of RequestVote, where the node may vote: the log is compared, the locks are given back,
-- and then the vote is stored.
unfoldable pub grant_vote : Raft → RequestVoteReq → (Raft → Raft) → ℕ → ℕ → Bool × Raft
grant_vote s req checking now rand =
    let log_ok = is_log_up_to_date s req.last_log_index req.last_log_term in
    let s' = checking s in
    if log_ok
    then (
      true,
      reset_election_timer
          (record s' { persistent = record (s'.persistent) { voted_for = req.candidate_id } }) now
          rand,
    )
    else (false, s')

-- handle_raft_request_vote between the deserialiser and the serialiser.
unfoldable pub request_vote : Raft → RequestVoteReq → Pauses → ℕ → ℕ → RequestVoteResp × Raft
unfolding adopt_term grant_vote
request_vote s req pauses now rand =
    let newer = ltb s.persistent.current_term req.term in
    let current_term = (if newer then req.term else s.persistent.current_term) in
    let voted_for = (if newer then 0 else s.persistent.voted_for) in
    let s1 = adopt_term s req.term pauses.stepping_down in
    let term = s1.persistent.current_term in
    if ltb req.term current_term
    then (record { term = term; vote_granted = false }, s1)
    else if (voted_for == 0) || (voted_for == req.candidate_id)
    then (let (granted, s2) = grant_vote s1 req pauses.checking now rand in
        (record { term = term; vote_granted = granted }, s2))
    else (record { term = term; vote_granted = false }, s1)

pub data HandlerResult : Type 0 where
  success : List ℕ → HandlerResult
  bad_argument internal_error : HandlerResult
  crashed : HandlerResult

abbrev pub respond : Option (List ℕ) → HandlerResult
respond none = internal_error
respond (some bytes) = success bytes

-- handle_raft_request_vote
unfoldable pub handle_request_vote : Raft → List ℕ → Pauses → ℕ → ℕ → HandlerResult × Raft
unfolding request_vote
handle_request_vote s request pauses now rand = elim (deserialize_request_vote_req request) [
  | fail ↦ (bad_argument, s)
  | fault ↦ (crashed, s)
  | ok req ↦
      let (resp, s') = request_vote s req pauses now rand in
      (respond (serialize_request_vote_resp resp 16), s')
]

unfoldable pub set_leader : Raft → ℕ → Raft
set_leader s id = record s { volatile_state = record (s.volatile_state) { current_leader = id } }

abbrev pub min_of : ℕ → ℕ → ℕ
min_of a b = if ltb a b then a else b

-- Rule 6 of AppendEntries
unfoldable pub advance_commit : Raft → ℕ → ℕ → Raft
advance_commit s leader_commit match_index =
    if ltb s.volatile_state.commit_index leader_commit
    then record s {
      volatile_state = record (s.volatile_state) {
        commit_index = min_of leader_commit match_index;
      };
    }
    else s

module _ (log_contains_entry : Persistent → ℕ → ℕ → Bool)
    (append_log_entries : Persistent → List Entry → ℕ → Persistent) where
  -- Rules 3 to 6: the node knows the sender as the leader of its term.
  unfoldable pub follow_leader : Raft → AppendEntriesReq → AppendEntriesResp × Raft
  unfolding advance_commit
  follow_leader s req =
      let p = s.persistent in
      let term = p.current_term in
      let count = length req.entries in
      let match_index = (req.prev_log_index + count) % 2 ^ 64 in
      let s' =
        (if ltb 0 count
          then record s { persistent = append_log_entries p req.entries req.prev_log_index }
          else s) in
      if log_contains_entry p req.prev_log_index req.prev_log_term
      then (
        record { term = term; success = true; match_index = match_index },
        advance_commit s' req.leader_commit match_index,
      )
      else (record { term = term; success = false; match_index = 0 }, s)

  -- handle_raft_append_entries between the deserialiser and the serialiser, with no other thread
  -- at work in its pauses.
  unfoldable pub append_entries : Raft → AppendEntriesReq → ℕ → ℕ → AppendEntriesResp × Raft
  unfolding adopt_term follow_leader set_leader
  append_entries s req now rand =
      let s1 = adopt_term s req.term (λ r. r) in
      let term = s1.persistent.current_term in
      if ltb req.term term
      then (record { term = term; success = false; match_index = 0 }, s1)
      else follow_leader (set_leader (reset_election_timer s1 now rand) req.leader_id) req

  -- handle_raft_append_entries
  unfoldable pub handle_append_entries : Raft → List ℕ → ℕ → ℕ → HandlerResult × Raft
  unfolding append_entries
  handle_append_entries s request now rand = elim (deserialize_append_entries_req request) [
    | fail ↦ (bad_argument, s)
    | fault ↦ (crashed, s)
    | ok req ↦
        let (resp, s') = append_entries s req now rand in
        (respond (serialize_append_entries_resp resp 32), s')
  ]

abbrev pub max_of : ℕ → ℕ → ℕ
max_of a b = if ltb b a then a else b

unfoldable pub install : Raft → InstallSnapshotReq → Raft
install s req = record s {
  persistent = record (s.persistent) {
    snapshot_last_index = req.last_included_index;
    snapshot_last_term = req.last_included_term;
  };
  volatile_state = record (s.volatile_state) {
    commit_index = max_of req.last_included_index s.volatile_state.commit_index;
    last_applied = max_of req.last_included_index s.volatile_state.last_applied;
  };
}

-- handle_raft_install_snapshot between the deserialiser and the serialiser; `restored` is whether
-- the callback on_snapshot_restore is absent or returns 0.
unfoldable pub install_snapshot :
    Raft → InstallSnapshotReq → Bool → ℕ → ℕ → InstallSnapshotResp × Raft
unfolding adopt_term set_leader install
install_snapshot s req restored now rand =
    let s1 = adopt_term s req.term (λ r. r) in
    let term = s1.persistent.current_term in
    let s2 = set_leader (reset_election_timer s1 now rand) req.leader_id in
    if ltb req.term term then (record { term = term }, s1) else (
      record { term = term },
      if req.done then (if restored then install s2 req else s2) else s2,
    )

-- handle_raft_install_snapshot; `restored` is what the callback makes of the request.
unfoldable pub handle_install_snapshot :
    Raft → List ℕ → (InstallSnapshotReq → Bool) → ℕ → ℕ → HandlerResult × Raft
unfolding install_snapshot
handle_install_snapshot s request restored now rand =
    elim (deserialize_install_snapshot_req request) [
      | fail ↦ (bad_argument, s)
      | fault ↦ (crashed, s)
      | ok req ↦
          let (resp, s') = install_snapshot s req (restored req) now rand in
          (respond (serialize_install_snapshot_resp resp 16), s')
    ]
