-- ===== src/Raft/Datastore/Client.antt =====
-- The client operations of raft_datastore.c, and its list of keys and statistics. The arguments are
-- never NULL. What raft_wait_committed reports of an index is the argument `waits`.
pub mod Laws
use e_roole.Prelude.{
  ℕ, zero, suc, ◌+◌, ◌^◌, ◌≤◌, ◌<◌, ◌≡◌, ◌≢◌, ◌⊎◌, inl, inr, refl, Bool, true, false, not, List, [],
  ◌∷◌, ◌++◌, map, Option, none, some, length, take, ltb, ◌==◌, if◌then◌else◌, arith, Option-cases,
}
use e_roole.Raft.State.{Raft, Role, leader, submit_command, is_leader_role}
use e_roole.Raft.State.Wait.{WaitResult, committed, timed_out, still_waiting}
use e_roole.Raft.Datastore.Table.{Record, Store, find_record, fetch, Valid, count_active}
use e_roole.Raft.Datastore.Command.{serialize_set, serialize_unset}
use e_roole.Raft.Datastore.Execute.{up}

pub data Code : Type 0 where
  result_ok err_nomem err_invalid err_notfound err_timeout : Code
  segfault : Code

-- `raft_submit_command` and `raft_wait_committed` on a serialised command.
unfoldable pub submit_and_wait : Raft → List ℕ → ℕ → (ℕ → WaitResult) → Option Code × Raft
unfolding submit_command
submit_and_wait s command now waits =
    let (submitted, s') = submit_command s command now in
    elim submitted [
      | none ↦ (some err_invalid, s')
      | some (index, term) ↦ elim (waits index) [
        | committed ↦ (some result_ok, s')
        | timed_out ↦ (some err_timeout, s')
        | still_waiting ↦ (none, s')
      ]
    ]

-- `raft_datastore_set`; `none` while it waits. The command buffer has 2 ^ 20 + 512 bytes.
unfoldable pub set_value : Raft → List ℕ → List ℕ → ℕ → (ℕ → WaitResult) → Option Code × Raft
unfolding submit_and_wait
set_value s key value now waits =
    if length value == 0
    then (some err_invalid, s)
    else if ltb (2 ^ 20) (length value)
    then (some err_invalid, s)
    else elim (serialize_set key value (2 ^ 20 + 512)) [
      | none ↦ (some err_invalid, s)
      | some command ↦ submit_and_wait s command now waits
    ]

-- `raft_datastore_unset`, with a buffer of 512 bytes.
unfoldable pub unset_value : Raft → List ℕ → ℕ → (ℕ → WaitResult) → Option Code × Raft
unfolding submit_and_wait
unset_value s key now waits = elim (serialize_unset key 512) [
  | none ↦ (some err_invalid, s)
  | some command ↦ submit_and_wait s command now waits
]

-- `memcpy(*out_value, record->value, record->value_len)` of what was allocated.
unfoldable pub copy_value : Record → Option (List ℕ)
copy_value r = elim r.value [
  | none ↦ if r.value_len == 0 then some [] else none
  | some v ↦ if ltb (length v) r.value_len then none else some (take r.value_len v)
]

-- `raft_datastore_get`: the code, `*out_value`, and the store with its statistics.
unfoldable pub get_value : Raft → List ℕ → (ℕ → Bool) → Store → Code × List ℕ × Store
unfolding copy_value
get_value s key alloc store =
    let store' = record store { total_gets = up store.total_gets } in
    if is_leader_role s.volatile_state.role
    then elim (find_record store.records key) [
      | none ↦ (err_notfound, [], store')
      | some (i, r) ↦
          if alloc r.value_len
          then elim (copy_value r) [
            | none ↦ (segfault, [], store')
            | some v ↦ (result_ok, v, store')
          ]
          else (err_nomem, [], store')
    ]
    else (err_invalid, [], store)

-- `raft_datastore_list_keys`, with a number of records that the loop has still to find.
unfoldable pub list_keys : List Record → ℕ → List (List ℕ)
list_keys rs zero = []
list_keys [] (suc n) = []
list_keys (r ∷ rs) (suc n) = elim r.active [
  | true ↦ r.key ∷ list_keys rs n
  | false ↦ list_keys rs (suc n)
]

pub record StoreStats : Type 0 where
  pub record_count : ℕ
  pub capacity : ℕ
  pub total_sets : ℕ
  pub total_gets : ℕ
  pub total_unsets : ℕ
  pub total_bytes : ℕ

-- The loop that adds up the value lengths (in a size_t that they fit).
unfoldable pub total_bytes : List Record → ℕ
total_bytes [] = 0
total_bytes (r ∷ rs) = elim r.active [
  | true ↦ r.value_len + total_bytes rs
  | false ↦ total_bytes rs
]

-- `raft_datastore_get_stats`
unfoldable pub get_stats : Store → StoreStats
unfolding total_bytes
get_stats s = record {
  record_count = s.count;
  capacity = length s.records;
  total_sets = s.total_sets;
  total_gets = s.total_gets;
  total_unsets = s.total_unsets;
  total_bytes = total_bytes s.records;
}
