-- ===== src/Raft/Types.antt =====
-- include/roole/raft/raft_types.h: log entries and the messages between peers.
use e_roole.Prelude.{ℕ, Bool, List, Option}

-- `raft_entry_type_t`. A field of this type holds whatever byte the wire carries.
abbrev pub entry_command : ℕ
entry_command = 0

abbrev pub entry_noop : ℕ
entry_noop = 2

-- `raft_log_entry_t`; `data` is the pointer, `none` for NULL, and `data_len` its stated length.
pub record Entry : Type 0 where
  pub term : ℕ
  pub index : ℕ
  pub entry_type : ℕ
  pub data_ptr : Option (List ℕ)
  pub data_len : ℕ
  pub timestamp_ms : ℕ
  pub client_id : ℕ

pub record RequestVoteReq : Type 0 where
  pub term : ℕ
  pub candidate_id : ℕ
  pub last_log_index : ℕ
  pub last_log_term : ℕ

pub record RequestVoteResp : Type 0 where
  pub term : ℕ
  pub vote_granted : Bool

-- `entry_count` is the length of `entries`.
pub record AppendEntriesReq : Type 0 where
  pub term : ℕ
  pub leader_id : ℕ
  pub prev_log_index : ℕ
  pub prev_log_term : ℕ
  pub leader_commit : ℕ
  pub entries : List Entry

pub record AppendEntriesResp : Type 0 where
  pub term : ℕ
  pub success : Bool
  pub match_index : ℕ

pub record InstallSnapshotReq : Type 0 where
  pub term : ℕ
  pub leader_id : ℕ
  pub last_included_index : ℕ
  pub last_included_term : ℕ
  pub offset : ℕ
  pub data_ptr : Option (List ℕ)
  pub data_len : ℕ
  pub done : Bool

pub record InstallSnapshotResp : Type 0 where
  pub term : ℕ
