-- ===== src/Node/Datastore.antt =====
-- src/node/handlers/raft_datastore_handlers.c: the requests that clients send to the key-value store.
-- The pointers that a handler is given are not NULL, and `memory` says of each size whether
-- safe_malloc of a response succeeds.
pub mod Requests
pub mod Safety
use e_roole.Prelude.{
  ℕ, ◌+◌, ◌%◌, ◌^◌, ◌||◌, ◌&&◌, Bool, true, false, List, [], ◌∷◌, ◌++◌, Option, none, some, length,
  ltb, leb, ◌==◌, if◌then◌else◌,
}
use e_roole.Wire.Word.{write_u16, write_u32, write_u64, read_u16, read_u32}
use e_roole.Wire.Reader.{
  Parsed, ok, fail, fault, Reader, ◌>>=◌, pure, read_bytes, write_flag, checked, failing,
}
use e_roole.Wire.Text.{c_string}
use e_roole.Raft.State.{Raft, is_leader_role}
use e_roole.Raft.State.Wait.{WaitResult}
use e_roole.Raft.Datastore.Table.{Store}
use e_roole.Raft.Datastore.Client.{
  Code, result_ok, err_notfound, segfault, set_value, unset_value, get_value, list_keys,
}

-- The parts of `node_state_t` that these handlers use; the datastore's Raft state is the node's.
pub record KvNode : Type 0 where
  pub raft : Raft
  pub store : Store
  pub has_raft : Bool
  pub has_datastore : Bool

-- The status that a handler returns, with the bytes of its response. `waiting` stands for a call that
-- has not returned yet.
pub data Reply : Type 0 where
  success : List ℕ → Reply
  bad_argument internal_error waiting crashed : Reply

-- `*response = safe_malloc(...)` and the bytes written into it.
abbrev pub respond : (ℕ → Bool) → List ℕ → Reply
respond memory bytes = if memory (length bytes) then success bytes else internal_error

abbrev pub on_parsed {ℓ κ} : {A : Type ℓ} {B : Type κ} → Parsed A → B → B → (A → B) → B
on_parsed (ok a) bad broken f = f a
on_parsed fail bad broken f = bad
on_parsed fault bad broken f = broken

-- The key, after its length, in a request of `len` bytes.
unfoldable pub read_request_key : ℕ → ℕ → Reader (List ℕ)
read_request_key len key_len =
    if leb 256 key_len || ltb len (2 + key_len) then failing else read_bytes key_len

-- What follows the key of a SET, from `offset`.
unfoldable pub read_request_value : ℕ → ℕ → Reader (List ℕ)
read_request_value len offset = if ltb len (offset + 4) then failing else do
  value_len ← read_u32
  (if (value_len == 0) || (ltb (2 ^ 20) value_len || ltb len (offset + 4 + value_len))
      then failing
      else read_bytes value_len)

-- The request of a SET: its key and value.
unfoldable pub read_set_request : ℕ → Reader (List ℕ × List ℕ)
unfolding read_request_key read_request_value
read_set_request len = do
  key_len ← read_u16
  key ← read_request_key len key_len
  value ← read_request_value len (2 + key_len)
  pure (c_string key, value)

-- Success, the log index and the term.
abbrev pub set_response : KvNode → Bool → List ℕ
set_response n done =
    let known = done && n.has_raft in
    write_flag done
    ++ (write_u64 (if known then n.raft.volatile_state.commit_index else 0)
        ++ write_u64 (if known then n.raft.persistent.current_term else 0))

abbrev pub is_ok : Code → Bool
is_ok result_ok = true
is_ok _ = false

-- The response to a SET that was submitted.
abbrev pub set_reply : KvNode → (ℕ → Bool) → Option Code × Raft → Reply × KvNode
set_reply n memory (none, s) = (waiting, record n { raft = s })
set_reply n memory (some code, s) =
    let n' = record n { raft = s } in (respond memory (set_response n' (is_ok code)), n')

-- `handle_raft_kv_set`
unfoldable pub handle_kv_set : KvNode → List ℕ → ℕ → (ℕ → WaitResult) → (ℕ → Bool) → Reply × KvNode
unfolding read_set_request
handle_kv_set n request now waits memory =
    if ltb (length request) 6
    then (bad_argument, n)
    else if n.has_datastore
    then on_parsed (checked 6 (read_set_request (length request)) request) (bad_argument, n)
        (crashed, n) (λ kv. set_reply n memory (set_value n.raft kv.0 kv.1 now waits))
    else (internal_error, n)

-- The response to a GET: found, the value's length and the value.
abbrev pub get_reply : KvNode → (ℕ → Bool) → Code × List ℕ × Store → Reply × KvNode
get_reply n memory (result_ok, value, store) =
    (respond memory (1 ∷ (write_u32 (length value % 2 ^ 32) ++ value)), record n { store = store })
get_reply n memory (segfault, value, store) = (crashed, record n { store = store })
get_reply n memory (_, value, store) = (respond memory (0 ∷ []), record n { store = store })

-- The request of a GET or an UNSET.
unfoldable pub read_key_request : ℕ → Reader (List ℕ)
unfolding read_request_key
read_key_request len = do
  key_len ← read_u16
  key ← read_request_key len key_len
  pure (c_string key)

-- `handle_raft_kv_get`; `alloc` is the datastore's own allocation.
unfoldable pub handle_kv_get : KvNode → List ℕ → (ℕ → Bool) → (ℕ → Bool) → Reply × KvNode
unfolding read_key_request
handle_kv_get n request alloc memory =
    if ltb (length request) 2
    then (bad_argument, n)
    else if n.has_datastore
    then on_parsed (checked 2 (read_key_request (length request)) request) (bad_argument, n)
        (crashed, n) (λ key. get_reply n memory (get_value n.raft key alloc n.store))
    else (internal_error, n)

abbrev pub is_gone : Code → Bool
is_gone result_ok = true
is_gone err_notfound = true
is_gone _ = false

abbrev pub unset_reply : KvNode → (ℕ → Bool) → Option Code × Raft → Reply × KvNode
unset_reply n memory (none, s) = (waiting, record n { raft = s })
unset_reply n memory (some code, s) =
    (respond memory (write_flag (is_gone code)), record n { raft = s })

-- `handle_raft_kv_unset`
unfoldable pub handle_kv_unset :
    KvNode → List ℕ → ℕ → (ℕ → WaitResult) → (ℕ → Bool) → Reply × KvNode
unfolding read_key_request
handle_kv_unset n request now waits memory =
    if ltb (length request) 2
    then (bad_argument, n)
    else if n.has_datastore
    then on_parsed (checked 2 (read_key_request (length request)) request) (bad_argument, n)
        (crashed, n) (λ key. unset_reply n memory (unset_value n.raft key now waits))
    else (internal_error, n)

-- The keys of a LIST response, each with its length.
unfoldable pub keys_bytes : List (List ℕ) → List ℕ
keys_bytes [] = []
keys_bytes (k ∷ ks) = write_u16 (length k % 2 ^ 16) ++ (k ++ keys_bytes ks)

-- `RAFT_KV_MAX_RECORDS`
abbrev pub max_records : ℕ
max_records = 10000

-- `handle_raft_kv_list`, whose request is not looked at.
unfoldable pub handle_kv_list : KvNode → (ℕ → Bool) → Reply
unfolding keys_bytes
handle_kv_list n memory =
    let keys = list_keys n.store.records max_records in
    if n.has_datastore
    then respond memory (write_u32 (length keys % 2 ^ 32) ++ keys_bytes keys)
    else internal_error

-- `handle_raft_status`
unfoldable pub handle_raft_status : KvNode → (ℕ → Bool) → Reply
handle_raft_status n memory =
    let s = n.raft in
    if n.has_raft
    then respond memory (
        write_flag (is_leader_role s.volatile_state.role)
        ++ (write_u64 s.persistent.current_term
            ++ (write_u64 s.volatile_state.commit_index
                ++ write_u16 s.volatile_state.current_leader)))
    else internal_error
