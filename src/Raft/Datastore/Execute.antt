-- ===== src/Raft/Datastore/Execute.antt =====
-- The execution of commands in raft_datastore.c: the state machine of the log. `alloc n` is whether
-- malloc finds `n` bytes, `created` and `updated` are what time_now_ms returns at the two places
-- that call it. A value is the bytes that memcpy copies into what was allocated.
pub mod Map
pub mod Keeps
use e_roole.Prelude.{
  ℕ, ◌+◌, ◌-◌, ◌%◌, ◌^◌, ◌==◌, Bool, true, false, List, Option, none, some, length, set,
  if◌then◌else◌,
}
use e_roole.Wire.Reader.{Parsed, ok, fail, fault}
use e_roole.Raft.Types.{Entry, entry_noop}
use e_roole.Raft.Datastore.Table.{Record, Store, find_record, find_free_slot}
use e_roole.Raft.Datastore.Command.{Command, set_command, unset_command, deserialize_command}

pub data ExecResult : Type 0 where
  executed refused crashed : ExecResult

abbrev pub up : ℕ → ℕ
up n = (n + 1) % 2 ^ 64

abbrev pub down : ℕ → ℕ
down n = (n + 2 ^ 64 - 1) % 2 ^ 64

-- The record of a new key: what the cell held is kept but for these.
unfoldable pub claim : Record → List ℕ → ℕ → Record
claim r key created = record r { key = key; created_at_ms = created; active = true }

-- The record with its new value.
unfoldable pub with_value : Record → List ℕ → ℕ → Record
with_value r value updated = record r {
  value = some value;
  value_len = length value;
  version = up r.version;
  updated_at_ms = updated;
}

-- From `record->value = safe_malloc(value_len)` on, for the record `r` at `i`.
unfoldable pub write_value : ℕ → Record → List ℕ → (ℕ → Bool) → ℕ → Store → ExecResult × Store
unfolding with_value
write_value i r value alloc updated s =
    if alloc (length value)
    then (
      executed,
      record s {
        records = set s.records i (with_value r value updated);
        total_sets = up s.total_sets;
      },
    )
    else (refused, record s { records = set s.records i (record r { value = none }) })

unfoldable pub execute_set : List ℕ → List ℕ → (ℕ → Bool) → ℕ → ℕ → Store → ExecResult × Store
unfolding write_value claim
execute_set key value alloc created updated s = elim (find_record s.records key) [
  | some (i, r) ↦ write_value i r value alloc updated s
  | none ↦ elim (find_free_slot s.records) [
    | none ↦ (refused, s)
    | some (i, r) ↦
        write_value i (claim r key created) value alloc updated (record s { count = up s.count })
  ]
]

unfoldable pub execute_unset : List ℕ → Store → ExecResult × Store
execute_unset key s = elim (find_record s.records key) [
  | none ↦ (executed, s)
  | some (i, r) ↦ (
    executed,
    record s {
      records = set s.records i (record r { value = none; active = false });
      count = down s.count;
      total_unsets = up s.total_unsets;
    },
  )
]

unfoldable pub execute : Command → (ℕ → Bool) → ℕ → ℕ → Store → ExecResult × Store
unfolding execute_set execute_unset
execute (set_command key value) alloc created updated s =
    execute_set key value alloc created updated s
execute (unset_command key) alloc created updated s = execute_unset key s

-- `raft_cmd_deserialize_and_execute`
unfoldable pub deserialize_and_execute : List ℕ → (ℕ → Bool) → ℕ → ℕ → Store → ExecResult × Store
unfolding execute
deserialize_and_execute bytes alloc created updated s = elim (deserialize_command bytes) [
  | fail ↦ (refused, s)
  | fault ↦ (crashed, s)
  | ok command ↦ execute command alloc created updated s
]

-- `raft_datastore_apply`; an entry that has bytes to execute but no pointer is refused.
unfoldable pub apply : Entry → (ℕ → Bool) → ℕ → ℕ → Store → ExecResult × Store
unfolding deserialize_and_execute
apply e alloc created updated s =
    if e.entry_type == entry_noop
    then (executed, s)
    else if e.data_len == 0
    then (executed, s)
    else elim e.data_ptr [
      | none ↦ (refused, s)
      | some bytes ↦ deserialize_and_execute bytes alloc created updated s
    ]
