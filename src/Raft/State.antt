-- ===== src/Raft/State.antt =====
-- struct raft_state and the transitions of src/raft/core/raft_state.c. A field of the C struct
-- keeps its name; `log_count` is the length of `log`. A value of time_now_ms() or rand() is an
-- argument. The node's id and configuration do not change. malloc succeeds.
pub mod Election
pub mod Replication
pub mod Apply
pub mod Wait
pub mod Local
use e_roole.Prelude.{
  ℕ, zero, suc, ◌+◌, ◌-◌, ◌%◌, ◌^◌, Bool, true, false, ◌&&◌, List, [], ◌∷◌, ◌++◌, Option, none,
  some, length, ltb, leb, ◌==◌, if◌then◌else◌, replicate,
}
use e_roole.Raft.Types.{Entry, entry_command}
use e_roole.Raft.Peers.{PeerTable}

pub data Role : Type 0 where
  follower candidate leader : Role

abbrev pub is_leader_role : Role → Bool
is_leader_role leader = true
is_leader_role _ = false

abbrev pub is_candidate_role : Role → Bool
is_candidate_role candidate = true
is_candidate_role _ = false

abbrev pub is_follower_role : Role → Bool
is_follower_role follower = true
is_follower_role _ = false

pub record Config : Type 0 where
  pub election_timeout_min_ms : ℕ
  pub election_timeout_max_ms : ℕ

pub record Persistent : Type 0 where
  pub current_term : ℕ
  pub voted_for : ℕ
  pub log : List Entry
  pub log_capacity : ℕ
  pub snapshot_last_index : ℕ
  pub snapshot_last_term : ℕ

pub record Volatile : Type 0 where
  pub commit_index : ℕ
  pub last_applied : ℕ
  pub role : Role
  pub current_leader : ℕ
  pub election_timeout_ms : ℕ
  pub last_heartbeat_ms : ℕ

pub record Stats : Type 0 where
  pub elections_started : ℕ
  pub elections_won : ℕ
  pub votes_received : ℕ
  pub votes_rejected : ℕ
  pub append_entries_sent : ℕ
  pub append_entries_success : ℕ
  pub append_entries_failed : ℕ
  pub commands_received : ℕ
  pub commands_applied : ℕ
  pub became_follower : ℕ
  pub became_candidate : ℕ
  pub became_leader : ℕ

pub record Raft : Type 0 where
  pub my_id : ℕ
  pub config : Config
  pub persistent : Persistent
  pub volatile_state : Volatile
  pub leader_state : PeerTable
  pub last_heartbeat_sent_ms : ℕ
  pub stats : Stats

-- `x++` on a uint64_t
abbrev pub tick : ℕ → ℕ
tick x = (x + 1) % 2 ^ 64

-- `config->election_timeout_max_ms - config->election_timeout_min_ms` is a uint32_t; where the two
-- are equal the source divides by zero.
unfoldable pub random_election_timeout : Config → ℕ → ℕ
random_election_timeout c rand =
    let range = (c.election_timeout_max_ms + 2 ^ 32 - c.election_timeout_min_ms) % 2 ^ 32 in
    (c.election_timeout_min_ms + rand % range) % 2 ^ 32

-- `log[log_count - 1]`, where there is one
abbrev pub last_entry : List Entry → Option Entry
last_entry [] = none
last_entry (e ∷ es) = elim (last_entry es) [ none ↦ some e | some l ↦ some l ]

abbrev pub last_index_or : ℕ → Option Entry → ℕ
last_index_or d none = d
last_index_or d (some e) = e.index

abbrev pub last_term_or : ℕ → Option Entry → ℕ
last_term_or d none = d
last_term_or d (some e) = e.term

unfoldable pub get_last_log_index : Persistent → ℕ
get_last_log_index p = last_index_or p.snapshot_last_index (last_entry p.log)

unfoldable pub get_last_log_term : Persistent → ℕ
get_last_log_term p = last_term_or p.snapshot_last_term (last_entry p.log)

unfoldable pub is_log_up_to_date : Raft → ℕ → ℕ → Bool
is_log_up_to_date s candidate_last_index candidate_last_term =
    let our_last_index = get_last_log_index s.persistent in
    let our_last_term = get_last_log_term s.persistent in
    if ltb our_last_term candidate_last_term
    then true
    else if candidate_last_term == our_last_term && leb our_last_index candidate_last_index
    then true
    else false

unfoldable pub become_follower : Raft → ℕ → Raft
become_follower s term = record s {
  persistent = record (s.persistent) { current_term = term; voted_for = 0 };
  volatile_state = record (s.volatile_state) { role = follower; current_leader = 0 };
  stats =
      if is_follower_role s.volatile_state.role
      then s.stats
      else record (s.stats) { became_follower = tick s.stats.became_follower };
}

unfoldable pub become_candidate : Raft → Raft
become_candidate s = record s {
  volatile_state = record (s.volatile_state) { role = candidate; current_leader = 0 };
  stats = record (s.stats) { became_candidate = tick s.stats.became_candidate };
}

-- `raft_submit_command`: what goes through `out_index` and `out_term`, or `none` for -1. An entry
-- of an empty command is stored too.
unfoldable pub submit_command : Raft → List ℕ → ℕ → Option (ℕ × ℕ) × Raft
submit_command s command now =
    let p = s.persistent in
    let term = p.current_term in
    let index = (get_last_log_index p + 1) % 2 ^ 64 in
    let entry : Entry = record {
      term = term;
      index = index;
      entry_type = entry_command;
      data_ptr = some command;
      data_len = length command;
      timestamp_ms = now;
      client_id = 0;
    } in
    if is_leader_role s.volatile_state.role
    then if leb p.log_capacity (length p.log) then (none, s) else (
      some (index, term),
      record s {
        persistent = record p { log = p.log ++ (entry ∷ []) };
        stats = record (s.stats) { commands_received = tick s.stats.commands_received };
      },
    )
    else (none, s)

-- The first `n` cells of an array set to `v`.
unfoldable pub fill : ℕ → ℕ → List ℕ → List ℕ
fill zero v xs = xs
fill (suc n) v [] = []
fill (suc n) v (x ∷ xs) = v ∷ fill n v xs

-- The loop of `become_leader` over the peers.
unfoldable pub reset_peers : PeerTable → ℕ → PeerTable
reset_peers t next = record t {
  next_index = fill t.peer_count next t.next_index;
  match_index = fill t.peer_count 0 t.match_index;
}

-- The last step of `become_leader` submits an empty command.
unfoldable pub become_leader : Raft → ℕ → Raft
become_leader s now =
    let s' = record s {
      volatile_state = record (s.volatile_state) { role = leader; current_leader = s.my_id };
      stats = record (s.stats) { became_leader = tick s.stats.became_leader };
      leader_state = reset_peers s.leader_state ((get_last_log_index s.persistent + 1) % 2 ^ 64);
      last_heartbeat_sent_ms = now;
    } in
    (submit_command s' [] now).1

unfoldable pub reset_election_timer : Raft → ℕ → ℕ → Raft
reset_election_timer s now rand = record s {
  volatile_state = record (s.volatile_state) {
    last_heartbeat_ms = now;
    election_timeout_ms = random_election_timeout s.config rand;
  };
}

-- `now - last_heartbeat_ms` wraps.
unfoldable pub should_start_election : Raft → ℕ → Bool
should_start_election s now =
    let v = s.volatile_state in
    if is_leader_role v.role
    then false
    else ltb v.election_timeout_ms ((now + 2 ^ 64 - v.last_heartbeat_ms) % 2 ^ 64)

-- `raft_state_create`, with peers arrays of zeros.
unfoldable pub create : ℕ → Config → ℕ → ℕ → Raft
create my_id config now rand = record {
  my_id = my_id;
  config = config;
  persistent = record {
    current_term = 0;
    voted_for = 0;
    log = [];
    log_capacity = 10000;
    snapshot_last_index = 0;
    snapshot_last_term = 0;
  };
  volatile_state = record {
    commit_index = 0;
    last_applied = 0;
    role = follower;
    current_leader = 0;
    election_timeout_ms = random_election_timeout config rand;
    last_heartbeat_ms = now;
  };
  leader_state = record {
    peers = replicate 16 0;
    clients = replicate 16 none;
    next_index = replicate 16 0;
    match_index = replicate 16 0;
    peer_count = 0;
  };
  last_heartbeat_sent_ms = 0;
  stats = record {
    elections_started = 0;
    elections_won = 0;
    votes_received = 0;
    votes_rejected = 0;
    append_entries_sent = 0;
    append_entries_success = 0;
    append_entries_failed = 0;
    commands_received = 0;
    commands_applied = 0;
    became_follower = 0;
    became_candidate = 0;
    became_leader = 0;
  };
}
