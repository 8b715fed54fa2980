-- ===== src/Node/Datastore/Requests.antt =====
-- Requests as a client writes them, handled by src/node/handlers/raft_datastore_handlers.c.
use e_roole.Prelude.{
  ℕ, ◌+◌, ◌%◌, ◌^◌, ◌≤◌, ◌<◌, ◌≡◌, refl, ap, ◌∙◌, Bool, true, false, List, ◌∷◌, ◌++◌, length,
  length-append, ltb, ◌==◌, arith, le→ltb, lt→leb,
}
use e_roole.Wire.Word.{write_u16, write_u32, Decodes-read_u16, Decodes-read_u32}
use e_roole.Wire.Reader.{
  ok, checked, run, Decodes, Decodes-bind, Decodes-map, Decodes-read_bytes, Decodes-checked,
}
use e_roole.Wire.Text.{c_string, IsString, c_string_lem}
use e_roole.Raft.State.{leader}
use e_roole.Raft.State.Wait.{WaitResult}
use e_roole.Raft.Datastore.Table.{Store}
use e_roole.Raft.Datastore.Execute.{executed, execute_set}
use e_roole.Raft.Datastore.Client.{Code, result_ok, set_value, get_value}
use e_roole.Raft.Datastore.Client.Laws.{get_value-execute_set}
use e_roole.Node.Datastore.{
  KvNode, Reply, success, respond, read_request_key, read_request_value, read_set_request,
  read_key_request, set_reply, get_reply, handle_kv_set, handle_kv_get,
}

-- [key_len:2][key]
abbrev pub key_request : List ℕ → List ℕ
key_request key = write_u16 (length key) ++ key

-- [key_len:2][key][value_len:4][value]
abbrev pub set_request : List ℕ → List ℕ → List ℕ
set_request key value = write_u16 (length key) ++ (key ++ (write_u32 (length value) ++ value))

Decodes-read_request_key :
    (len : ℕ) (key : List ℕ)
    → length key < 256
    → 2 + length key ≤ len
    → Decodes (read_request_key len (length key)) key key
unfolding read_request_key
Decodes-read_request_key len key short room =
    rw (lt→leb (length key) 256 short, le→ltb len (2 + length key) room) (Decodes-read_bytes key)

Decodes-read_request_value :
    (len offset : ℕ) (value : List ℕ)
    → 0 < length value
    → length value ≤ 2 ^ 20
    → offset + 4 + length value ≤ len
    → Decodes (read_request_value len offset) value (write_u32 (length value) ++ value)
unfolding read_request_value
Decodes-read_request_value len offset value some_bytes small room =
    let n = length value in
    let not_zero : (n == 0) ≡ false = ground arith in
    rw (le→ltb len (offset + 4) (omega arith)) (
      Decodes-bind _ (Decodes-read_u32 n (omega arith)) (
        rw (not_zero, le→ltb len (offset + 4 + n) room, le→ltb (2 ^ 20) n small)
          (Decodes-read_bytes value)))

-- A request for a key that is a C string is read as that key.
read_key_request-checked :
    (key : List ℕ)
    → IsString key
    → length key < 256
    → checked 2 (read_key_request (length (key_request key))) (key_request key) ≡ ok key
unfolding read_key_request write_u16
read_key_request-checked key str short =
    Decodes-checked 2
      (Decodes-bind _ (Decodes-read_u16 (length key) (omega arith)) (
        Decodes-map c_string
          (Decodes-read_request_key (length (key_request key)) key short (omega arith))))
      (omega arith)
    ∙ ap ok (c_string_lem key str)

length-key_request : (key : List ℕ) → 2 ≤ length (key_request key)
unfolding write_u16
length-key_request key = omega arith

length-set_request :
    (key value : List ℕ) → length (set_request key value) ≡ 6 + length key + length value
unfolding write_u16 write_u32
length-set_request key value = omega (arith, length-append key (write_u32 (length value) ++ value))

read_set_request-checked :
    (key value : List ℕ)
    → IsString key
    → length key < 256
    → 0 < length value
    → length value ≤ 2 ^ 20
    → checked 6 (read_set_request (length (set_request key value))) (set_request key value)
      ≡ ok (key, value)
unfolding read_set_request
read_set_request-checked key value str short some_bytes small =
    let bytes = set_request key value in
    let size = length-set_request key value in
    let len = length bytes in
    let decodes : Decodes (read_set_request len) (c_string key, value)
        (write_u16 (length key) ++ (key ++ (write_u32 (length value) ++ value))) =
      Decodes-bind _ (Decodes-read_u16 (length key) (omega arith)) (
        Decodes-bind _ (Decodes-read_request_key len key short (omega arith)) (
          Decodes-map (λ v. (c_string key, v))
            (Decodes-read_request_value len (2 + length key) value some_bytes small
              (omega arith)))) in
    Decodes-checked 6 decodes (omega arith) ∙ ap (λ k. ok (k, value)) (c_string_lem key str)

-- A client's SET request, for a key that is a C string shorter than 256 bytes and a value from one
-- byte to a mebibyte, is answered by what raft_datastore_set returns for that key and value.
pub handle_kv_set-set_value :
    (n : KvNode) (key value : List ℕ) (now : ℕ) (waits : ℕ → WaitResult) (memory : ℕ → Bool)
    → n.has_datastore ≡ true
    → IsString key
    → length key < 256
    → 0 < length value
    → length value ≤ 2 ^ 20
    → handle_kv_set n (set_request key value) now waits memory
      ≡ set_reply n memory (set_value n.raft key value now waits)
unfolding handle_kv_set
handle_kv_set-set_value n key value now waits memory has str short some_bytes small =
    let bytes = set_request key value in
    let long : ltb (length bytes) 6 ≡ false =
      le→ltb (length bytes) 6 (omega (arith, length-set_request key value)) in
    let ran : run (read_set_request (length bytes)) bytes ≡ ok (key, value) =
      rw long at (read_set_request-checked key value str short some_bytes small) in
    rw (long, ran, has) refl

-- A client's GET request for a key that is a C string shorter than 256 bytes is answered by what
-- raft_datastore_get returns for that key.
pub handle_kv_get-get_value :
    (n : KvNode) (key : List ℕ) (alloc memory : ℕ → Bool)
    → n.has_datastore ≡ true
    → IsString key
    → length key < 256
    → handle_kv_get n (key_request key) alloc memory
      ≡ get_reply n memory (get_value n.raft key alloc n.store)
unfolding handle_kv_get
handle_kv_get-get_value n key alloc memory has str short =
    let bytes = key_request key in
    let long : ltb (length bytes) 2 ≡ false = le→ltb (length bytes) 2 (length-key_request key) in
    let ran : run (read_key_request (length bytes)) bytes ≡ ok key =
      rw long at (read_key_request-checked key str short) in
    rw (long, ran, has) refl

respond-success :
    (memory : ℕ → Bool) (bytes : List ℕ)
    → memory (length bytes) ≡ true
    → respond memory bytes ≡ success bytes
respond-success memory bytes enough = rw enough refl

get_reply-ok :
    (n : KvNode) (memory : ℕ → Bool) (r : Code × List ℕ × Store)
    → memory (5 + length r.1) ≡ true
    → r.0 ≡ result_ok
    → (get_reply n memory r).0 ≡ success (1 ∷ (write_u32 (length r.1 % 2 ^ 32) ++ r.1))
unfolding write_u32 write_u16
get_reply-ok n memory (code, value, store) enough done =
    let bytes = 1 ∷ (write_u32 (length value % 2 ^ 32) ++ value) in
    let sized : length bytes ≡ 5 + length value = omega arith in
    rw (done, get_reply) (respond-success memory bytes (ap memory sized ∙ enough))

-- On a leader, a client's GET request for a key that a SET was executed for is answered with that
-- SET's value and its length, if there is memory for the copy and for the response.
pub handle_kv_get-execute_set :
    (n : KvNode) (key value : List ℕ) (alloc alloc' memory : ℕ → Bool) (created updated : ℕ)
    (store : Store)
    → n.has_datastore ≡ true
    → IsString key
    → length key < 256
    → n.raft.volatile_state.role ≡ leader
    → alloc' (length value) ≡ true
    → memory (5 + length value) ≡ true
    → (execute_set key value alloc created updated store).0 ≡ executed
    → n.store ≡ (execute_set key value alloc created updated store).1
    → (handle_kv_get n (key_request key) alloc' memory).0
      ≡ success (1 ∷ (write_u32 (length value % 2 ^ 32) ++ value))
handle_kv_get-execute_set n key value alloc alloc' memory created updated store has str short role
      copy enough done same =
    let (code, out, kept) =
      get_value-execute_set n.raft key value alloc alloc' created updated store role copy done in
    let r = get_value n.raft key alloc' n.store in
    let code' : r.0 ≡ result_ok = ap (λ s. (get_value n.raft key alloc' s).0) same ∙ code in
    let out' : r.1 ≡ value = ap (λ s. (get_value n.raft key alloc' s).1) same ∙ out in
    let room : memory (5 + length r.1) ≡ true = ap (λ v. memory (5 + length v)) out' ∙ enough in
    ap (λ (x : Reply × KvNode). x.0) (handle_kv_get-get_value n key alloc' memory has str short)
    ∙ get_reply-ok n memory r room code'
    ∙ ap (λ v. success (1 ∷ (write_u32 (length v % 2 ^ 32) ++ v))) out'
