-- ===== src/Examples/Data.antt =====
-- The concrete node, requests and store of the examples.
use e_roole.Prelude.{ℕ, Bool, true, false, List, [], ◌∷◌, ◌++◌, take, none, some, replicate}
use e_roole.Raft.Types.{Entry, RequestVoteReq, AppendEntriesReq, InstallSnapshotReq, entry_command}
use e_roole.Raft.Peers.{PeerTable}
use e_roole.Raft.State.{Raft, Persistent, Stats, Role, follower, leader}
use e_roole.Raft.State.Election.{VoteCall}
use e_roole.Raft.State.Replication.{AppendCall}
use e_roole.Raft.Datastore.Table.{Store, empty_record}

abbrev pub entry_at : ℕ → ℕ → Entry
entry_at term index = record {
  term = term;
  index = index;
  entry_type = entry_command;
  data_ptr = some (1 ∷ 2 ∷ []);
  data_len = 2;
  timestamp_ms = 1000;
  client_id = 4;
}

abbrev zero_stats : Stats
zero_stats = record {
  elections_started = 0;
  elections_won = 0;
  votes_received = 0;
  votes_rejected = 0;
  append_entries_sent = 0;
  append_entries_success = 0;
  append_entries_failed = 0;
  commands_received = 0;
  commands_applied = 0;
  became_follower = 0;
  became_candidate = 0;
  became_leader = 0;
}

-- Node 1 of three, in term 5, with a log of two entries of which one is committed.
abbrev pub node_with : Role → ℕ → PeerTable → Raft
node_with role voted_for peers = record {
  my_id = 1;
  config = record { election_timeout_min_ms = 150; election_timeout_max_ms = 300 };
  persistent = record {
    current_term = 5;
    voted_for = voted_for;
    log = entry_at 3 1 ∷ entry_at 5 2 ∷ [];
    log_capacity = 10000;
    snapshot_last_index = 0;
    snapshot_last_term = 0;
  };
  volatile_state = record {
    commit_index = 1;
    last_applied = 0;
    role = role;
    current_leader = 0;
    election_timeout_ms = 200;
    last_heartbeat_ms = 1000;
  };
  leader_state = peers;
  last_heartbeat_sent_ms = 0;
  stats = zero_stats;
}

abbrev pub two_peers : PeerTable
two_peers = record {
  peers = 2 ∷ 3 ∷ replicate 14 0;
  clients = some 7 ∷ some 8 ∷ replicate 14 none;
  next_index = 3 ∷ 3 ∷ replicate 14 0;
  match_index = replicate 16 0;
  peer_count = 2;
}

abbrev pub no_peers : PeerTable
no_peers = record {
  peers = replicate 16 0;
  clients = replicate 16 none;
  next_index = replicate 16 0;
  match_index = replicate 16 0;
  peer_count = 0;
}

abbrev pub node : Raft
node = node_with follower 0 two_peers

abbrev pub voter : Raft
voter = node_with follower 2 two_peers

abbrev pub leading : Raft
leading = node_with leader 1 two_peers

abbrev pub vote_from : ℕ → ℕ → RequestVoteReq
vote_from id term = record { term = term; candidate_id = id; last_log_index = 2; last_log_term = 5 }

-- A log that takes what it is sent after the previous entry.
abbrev pub contains : Persistent → ℕ → ℕ → Bool
contains p index term = true

abbrev pub append : Persistent → List Entry → ℕ → Persistent
append p es prev = record p { log = take prev p.log ++ es }

abbrev pub two_entries : AppendEntriesReq
two_entries = record {
  term = 5;
  leader_id = 2;
  prev_log_index = 2;
  prev_log_term = 5;
  leader_commit = 3;
  entries = entry_at 5 3 ∷ entry_at 5 4 ∷ [];
}

abbrev pub snapshot : InstallSnapshotReq
snapshot = record {
  term = 6;
  leader_id = 3;
  last_included_index = 9;
  last_included_term = 5;
  offset = 0;
  data_ptr = some (7 ∷ 7 ∷ 7 ∷ []);
  data_len = 3;
  done = true;
}

-- Every peer grants its vote.
abbrev pub all_grant : ℕ → RequestVoteReq → VoteCall
all_grant i req = record {
  reply = some (record { term = req.term; vote_granted = true });
  meanwhile = λ s. s;
  now = 1200;
}

-- While the request is under way the node moves on to term 9; the response has term 7.
abbrev pub late : AppendEntriesReq → AppendCall
late req = record {
  reply = some (record { term = 7; success = false; match_index = 0 });
  meanwhile = λ s. record s { persistent = record (s.persistent) { current_term = 9 } };
}

abbrev pub quiet : AppendEntriesReq → AppendCall
quiet req = record {
  reply = some (record { term = 7; success = false; match_index = 0 });
  meanwhile = λ s. s;
}

abbrev pub key_a : List ℕ
key_a = 97 ∷ []

abbrev pub key_b : List ℕ
key_b = 98 ∷ []

-- A store of two cells, one in use under "a".
abbrev pub store : Store
store = record {
  records =
      record empty_record { key = key_a; value = some (5 ∷ []); value_len = 1; active = true }
      ∷ empty_record
      ∷ [];
  count = 1;
  total_sets = 1;
  total_gets = 0;
  total_unsets = 0;
}
