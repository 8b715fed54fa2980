-- ===== src/Raft/State/Replication.antt =====
-- send_append_entries_to_peer and the heartbeat loop of raft_state.c. The persistent lock is not
-- held while the request is under way; `meanwhile` is what other threads do then.
use e_roole.Prelude.{
  ℕ, ◌+◌, ◌-◌, ◌%◌, ◌^◌, ◌&&◌, List, [], ◌∷◌, Option, none, some, length, take, get_elem?, set, ltb,
  leb, if◌then◌else◌,
}
use e_roole.Raft.Types.{Entry, AppendEntriesReq, AppendEntriesResp}
use e_roole.Raft.State.{Raft, tick, become_follower, is_leader_role}

-- One raft_rpc_append_entries: the response, `none` where the status is not RPC_STATUS_SUCCESS.
pub record AppendCall : Type 0 where
  pub reply : Option AppendEntriesResp
  pub meanwhile : Raft → Raft

abbrev pub index_or_zero : Option ℕ → ℕ
index_or_zero none = 0
index_or_zero (some i) = i

abbrev pub term_or_zero : Option Entry → ℕ
term_or_zero none = 0
term_or_zero (some e) = e.term

-- The request for peer `i`. It carries no entries; `next_idx - 1` wraps.
unfoldable pub append_request : Raft → ℕ → AppendEntriesReq
append_request s i =
    let next_idx = index_or_zero (get_elem? s.leader_state.next_index i) in
    let prev = (next_idx + 2 ^ 64 - 1) % 2 ^ 64 in
    let log = s.persistent.log in
    record {
      term = s.persistent.current_term;
      leader_id = s.my_id;
      prev_log_index = prev;
      prev_log_term =
          if ltb 0 prev && leb prev (length log)
          then term_or_zero (get_elem? log (prev - 1))
          else 0;
      leader_commit = s.volatile_state.commit_index;
      entries = [];
    }

-- What is done with the response of peer `i` to a request of term `term`.
unfoldable pub handle_append_response : Raft → ℕ → ℕ → AppendEntriesResp → Raft
handle_append_response s i term resp =
    let t = s.leader_state in
    let next = index_or_zero (get_elem? t.next_index i) in
    if ltb term resp.term
    then become_follower s resp.term
    else if resp.success
    then record s {
      stats = record (s.stats) { append_entries_success = tick s.stats.append_entries_success };
      leader_state = record t {
        next_index = set t.next_index i (tick resp.match_index);
        match_index = set t.match_index i resp.match_index;
      };
    }
    else record s {
      stats = record (s.stats) { append_entries_failed = tick s.stats.append_entries_failed };
      leader_state =
          if ltb 1 next then record t { next_index = set t.next_index i (next - 1) } else t;
    }

-- `client` is `peer_clients[i]`, and `net` what comes of the request.
unfoldable pub send_append_entries : Raft → ℕ → Option ℕ → (AppendEntriesReq → AppendCall) → Raft
unfolding append_request handle_append_response
send_append_entries s i none net = s
send_append_entries s i (some c) net =
    let req = append_request s i in
    let call = net req in
    let s' = call.meanwhile s in
    let sent = record s' {
      stats = record (s'.stats) { append_entries_sent = tick s'.stats.append_entries_sent };
    } in
    elim call.reply [ none ↦ sent | some resp ↦ handle_append_response sent i req.term resp ]

-- The loop over the peers that are left, from index `i`.
unfoldable pub send_to_all : List (Option ℕ) → ℕ → (ℕ → AppendEntriesReq → AppendCall) → Raft → Raft
send_to_all [] i net s = s
send_to_all (c ∷ cs) i net s = send_to_all cs (i + 1) net (send_append_entries s i c (net i))

-- A round of the heartbeat thread.
unfoldable pub heartbeat_round : Raft → (ℕ → AppendEntriesReq → AppendCall) → Raft
unfolding send_to_all
heartbeat_round s net =
    let t = s.leader_state in
    if is_leader_role s.volatile_state.role
    then send_to_all (take t.peer_count t.clients) 0 net s
    else s
