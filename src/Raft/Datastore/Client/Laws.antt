-- ===== src/Raft/Datastore/Client/Laws.antt =====
-- The client operations of raft_datastore.c together with the commands' execution.
use e_roole.Prelude.{
  ℕ, zero, suc, ◌+◌, ◌^◌, ◌≤◌, ◌<◌, ◌≡◌, refl, Bool, true, false, List, [], ◌∷◌, ◌++◌, some, length,
  take, take-length, min, ltb, arith, le→ltb, ne→==, ◌%◌,
}
use e_roole.Wire.Reader.{ok}
use e_roole.Raft.Types.{Entry, entry_command}
use e_roole.Raft.State.{Raft, leader, submit_command, get_last_log_index}
use e_roole.Raft.State.Wait.{WaitResult}
use e_roole.Raft.Datastore.Table.{Record, Store, count_active}
use e_roole.Wire.Text.{IsString}
use e_roole.Raft.Datastore.Command.{
  Command, set_command, deserialize_command, deserialize-serialize_set,
}
use e_roole.Raft.Datastore.Execute.{executed, execute_set, execute, deserialize_and_execute, apply}
use e_roole.Raft.Datastore.Execute.Map.{Stored, execute_set-Stored}
use e_roole.Raft.Datastore.Client.{result_ok, submit_and_wait, set_value, get_value, list_keys}

get_value-Stored :
    (s : Raft) (key value : List ℕ) (alloc : ℕ → Bool) (store : Store)
    → s.volatile_state.role ≡ leader
    → alloc (length value) ≡ true
    → Stored store key value
    → let (code, out, after) = get_value s key alloc store in
      (code ≡ result_ok) × (out ≡ value) × (after.records ≡ store.records)
unfolding get_value
get_value-Stored s key value alloc store role memory (i, r, e, v, l) =
    let enough : ltb (length value) r.value_len ≡ false = le→ltb _ _ (omega arith) in
    let all : take r.value_len value ≡ value = rw l (take-length value) in
    let memory' : alloc r.value_len ≡ true = rw l memory in
    rw (role, e, get_value, memory', v, enough, all) (refl, refl, refl)

-- On a leader, a key that a SET was executed for is read back as that SET's value, if there is
-- memory for the copy; reading keeps the records.
pub get_value-execute_set :
    (s : Raft) (key value : List ℕ) (alloc alloc' : ℕ → Bool) (created updated : ℕ) (store : Store)
    → s.volatile_state.role ≡ leader
    → alloc' (length value) ≡ true
    → (execute_set key value alloc created updated store).0 ≡ executed
    → let store' = (execute_set key value alloc created updated store).1 in
      let (code, out, after) = get_value s key alloc' store' in
      (code ≡ result_ok) × (out ≡ value) × (after.records ≡ store'.records)
get_value-execute_set s key value alloc alloc' created updated store role memory done =
    get_value-Stored s key value alloc' (execute_set key value alloc created updated store).1 role
      memory (execute_set-Stored key value alloc created updated store done).0

-- The entry that a leader makes of a command.
abbrev entry_of : Raft → List ℕ → ℕ → Entry
entry_of s command now = record {
  term = s.persistent.current_term;
  index = (get_last_log_index s.persistent + 1) % 2 ^ 64;
  entry_type = entry_command;
  data_ptr = some command;
  data_len = length command;
  timestamp_ms = now;
  client_id = 0;
}

submit_and_wait-log :
    (s : Raft) (command : List ℕ) (now : ℕ) (waits : ℕ → WaitResult)
    → s.volatile_state.role ≡ leader
    → length s.persistent.log < s.persistent.log_capacity
    → (submit_and_wait s command now waits).1.persistent.log
      ≡ s.persistent.log ++ (entry_of s command now ∷ [])
unfolding submit_and_wait submit_command
submit_and_wait-log s command now waits role room = ground arith

apply-entry_of :
    (s : Raft) (bytes : List ℕ) (now : ℕ) (c : Command)
    → deserialize_command bytes ≡ ok c
    → 0 < length bytes
    → (alloc : ℕ → Bool) (created updated : ℕ) (store : Store)
    → apply (entry_of s bytes now) alloc created updated store
      ≡ execute c alloc created updated store
unfolding apply deserialize_and_execute
apply-entry_of s bytes now c d some_bytes alloc created updated store =
    rw (ne→== (length bytes) 0 (omega arith), deserialize_and_execute, d) refl

-- A client's SET on a leader whose log has room appends one entry, and applying that entry to any
-- store, on any node, executes the client's SET. The key is a C string shorter than 256 bytes, the
-- value has between 1 byte and a mebibyte.
pub set_value-apply :
    (s : Raft) (key value : List ℕ) (now : ℕ) (waits : ℕ → WaitResult)
    → IsString key
    → length key < 256
    → 0 < length value
    → length value ≤ 2 ^ 20
    → s.volatile_state.role ≡ leader
    → length s.persistent.log < s.persistent.log_capacity
    → (e : Entry) × ((set_value s key value now waits).1.persistent.log
        ≡ s.persistent.log ++ (e ∷ []))
      × ((alloc : ℕ → Bool) (created updated : ℕ) (store : Store)
          → apply e alloc created updated store
            ≡ execute (set_command key value) alloc created updated store)
unfolding set_value submit_command apply
set_value-apply s key value now waits str short some_value small role room =
    let (bytes, w, l, d) =
      deserialize-serialize_set key value (2 ^ 20 + 512) str short small (omega arith) in
    (
      entry_of s bytes now,
      rw (ne→== (length value) 0 (omega arith), le→ltb (2 ^ 20) (length value) small, w, set_value)
          (submit_and_wait-log s bytes now waits role room),
      apply-entry_of s bytes now (set_command key value) d (omega arith),
    )

-- The list of keys has as many keys as records are in use, but no more than was asked for.
pub length-list_keys :
    (rs : List Record) (n : ℕ) → length (list_keys rs n) ≡ min n (count_active rs)
unfolding list_keys count_active
length-list_keys rs zero = omega arith
length-list_keys [] (suc n) = omega arith
length-list_keys (r ∷ rs) (suc n) =
    ground (arith, length-list_keys rs n, length-list_keys rs (suc n))
