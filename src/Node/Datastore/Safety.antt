-- ===== src/Node/Datastore/Safety.antt =====
-- The reads of the handlers of src/node/handlers/raft_datastore_handlers.c, on any request.
use e_roole.Prelude.{
  ℕ, ◌+◌, ◌^◌, ◌≢◌, ◌||◌, Bool, true, false, List, Option, none, some, length, ltb, leb, ◌==◌,
  if◌then◌else◌, arith, Bool-cases, inl, inr,
}
use e_roole.Wire.Word.{Takes-read_u16, Takes-read_u32}
use e_roole.Wire.Reader.{Parsed, ok, fail, fault, checked, read_bytes, Takes-read_bytes}
use e_roole.Wire.Guarded.{
  Returns, checked-Returns, Guarded, Guarded-bind, Guarded-test, Guarded-test_bind, Guarded-last,
  Guarded-map,
}
use e_roole.Wire.Text.{c_string}
use e_roole.Raft.State.{Raft}
use e_roole.Raft.State.Wait.{WaitResult}
use e_roole.Raft.Datastore.Client.{Code, set_value, unset_value}
use e_roole.Node.Datastore.{
  KvNode, Reply, bad_argument, crashed, respond, on_parsed, read_request_key, read_request_value,
  read_set_request, read_key_request, set_reply, unset_reply, handle_kv_set, handle_kv_unset,
}

Guarded-read_request_value :
    (len offset : ℕ) → Guarded len offset (λ _. Unit) (read_request_value len offset)
unfolding read_request_value
Guarded-read_request_value len offset = Guarded-test (ltb len (offset + 4)) λ long.
    Guarded-bind Takes-read_u32 (ground arith) λ n.
      Guarded-test ((n == 0) || (ltb (2 ^ 20) n || ltb len (offset + 4 + n)))
        λ ok. Guarded-last (Takes-read_bytes n) (ground arith)

read_set_request-Returns :
    (request : List ℕ) → Returns (λ _. Unit) (checked 6 (read_set_request (length request)) request)
unfolding read_set_request read_request_key
read_set_request-Returns request =
    let len = length request in
    checked-Returns 6 (read_set_request len) (λ _. Unit) request
      λ h. Guarded-bind Takes-read_u16 (omega arith) λ key_len.
        Guarded-test_bind (read_bytes key_len) _ (leb 256 key_len || ltb len (2 + key_len))
          λ inside. Guarded-bind (Takes-read_bytes key_len) (ground arith) λ key.
            Guarded-map (λ v. (c_string key, v)) (Guarded-read_request_value len (2 + key_len))

read_key_request-Returns :
    (request : List ℕ) → Returns (λ _. Unit) (checked 2 (read_key_request (length request)) request)
unfolding read_key_request read_request_key
read_key_request-Returns request =
    let len = length request in
    checked-Returns 2 (read_key_request len) (λ _. Unit) request
      λ h. Guarded-bind Takes-read_u16 (omega arith) λ key_len.
        Guarded-test_bind (read_bytes key_len) _ (leb 256 key_len || ltb len (2 + key_len))
          λ inside. Guarded-map c_string (Guarded-last (Takes-read_bytes key_len) (ground arith))

-- A handler that reads its request safely does not crash, if what it does then does not.
on_parsed-ne-crashed {ℓ} :
    {A : Type ℓ} (p : Parsed A) (n : KvNode) (f : A → Reply × KvNode)
    → Returns (λ _. Unit) p
    → ((a : A) → (f a).0 ≢ crashed)
    → (on_parsed p (bad_argument, n) (crashed, n) f).0 ≢ crashed
on_parsed-ne-crashed (ok a) n f h k = k a
on_parsed-ne-crashed fail n f h k = λ e. cc
on_parsed-ne-crashed fault n f h k = absurd h.holds

respond-ne-crashed : (memory : ℕ → Bool) (bytes : List ℕ) → respond memory bytes ≢ crashed
respond-ne-crashed memory bytes = elim (Bool-cases (memory (length bytes))) [
  | inl enough ↦ rw enough (λ e. cc)
  | inr none_left ↦ rw none_left (λ e. cc)
]

set_reply-ne-crashed :
    (n : KvNode) (memory : ℕ → Bool) (r : Option Code × Raft) → (set_reply n memory r).0 ≢ crashed
set_reply-ne-crashed n memory (none, s) = λ e. cc
set_reply-ne-crashed n memory (some code, s) = respond-ne-crashed memory _

unset_reply-ne-crashed :
    (n : KvNode) (memory : ℕ → Bool) (r : Option Code × Raft) → (unset_reply n memory r).0 ≢ crashed
unset_reply-ne-crashed n memory (none, s) = λ e. cc
unset_reply-ne-crashed n memory (some code, s) = respond-ne-crashed memory _

if-ne-crashed :
    (b : Bool) (x y : Reply × KvNode)
    → x.0 ≢ crashed
    → y.0 ≢ crashed
    → (if b then x else y).0 ≢ crashed
if-ne-crashed true x y h k = h
if-ne-crashed false x y h k = k

-- No SET and no UNSET request, whatever lengths it states, makes its handler read past its end.
pub handle_kv-ne-crashed :
    (n : KvNode) (request : List ℕ) (now : ℕ) (waits : ℕ → WaitResult) (memory : ℕ → Bool)
    → ((handle_kv_set n request now waits memory).0 ≢ crashed)
      × ((handle_kv_unset n request now waits memory).0 ≢ crashed)
unfolding handle_kv_set handle_kv_unset
handle_kv-ne-crashed n request now waits memory = (
  if-ne-crashed (ltb (length request) 6) _ _ (λ e. cc)
      (if-ne-crashed n.has_datastore _ _
        (on_parsed-ne-crashed _ n _ (read_set_request-Returns request)
          λ kv. set_reply-ne-crashed n memory (set_value n.raft kv.0 kv.1 now waits))
        (λ e. cc)),
  if-ne-crashed (ltb (length request) 2) _ _ (λ e. cc)
      (if-ne-crashed n.has_datastore _ _
        (on_parsed-ne-crashed _ n _ (read_key_request-Returns request)
          λ key. unset_reply-ne-crashed n memory (unset_value n.raft key now waits))
        (λ e. cc)),
)
