-- ===== src/Rpc/Server.antt =====
-- src/rpc/server/rpc_server.c: requests. What a handler does to the program is a function of the
-- program's state, and what `send` takes of a message is a function of the message. A pointer
-- argument is not NULL, and a response is given with its length.
pub mod Stream
pub mod Frames
pub mod Room
pub mod Connections
pub mod Active
pub mod Count
use e_roole.Prelude.{
  ℕ, zero, suc, ◌+◌, ◌-◌, ◌%◌, ◌^◌, ◌||◌, List, [], ◌∷◌, ◌++◌, Option, none, some, length, take,
  drop, ltb, ◌==◌, if◌then◌else◌,
}
use e_roole.Wire.Reader.{ok, fail, fault}
use e_roole.Rpc.Frame.{Header, header_size, pack_message, unpack_header}
use e_roole.Rpc.Registry.{Registry, lookup}

-- `RPC_TYPE_REQUEST`, `RPC_TYPE_RESPONSE` and the codes of `rpc_status_t`
abbrev pub type_request : ℕ
type_request = 1

abbrev pub type_response : ℕ
type_response = 2

abbrev pub status_success : ℕ
status_success = 0

abbrev pub status_bad_argument : ℕ
status_bad_argument = 1

abbrev pub status_func_not_found : ℕ
status_func_not_found = 2

abbrev pub status_internal_error : ℕ
status_internal_error = 3

abbrev pub status_network : ℕ
status_network = 4

abbrev pub status_timeout : ℕ
status_timeout = 5

-- What the server calls: a handler with its context on a payload, which gives a status and a
-- response, and `send`, which gives the number of bytes that it took, or 0 for an error.
pub record Calls (S : Type 0) : Type 0 where
  pub invoke : ℕ → ℕ → List ℕ → S → ℕ × List ℕ × S
  pub accepts : List ℕ → ℕ

-- The counters of `struct rpc_server`, with the state of the program and the messages that were
-- handed to `send`, the last one first.
pub record Server (S : Type 0) : Type 0 where
  pub registry : Registry
  pub buffer_size : ℕ
  pub requests_received : ℕ
  pub requests_processed : ℕ
  pub requests_failed : ℕ
  pub bytes_received : ℕ
  pub bytes_sent : ℕ
  pub program : S
  pub sent : List (List ℕ)

abbrev pub plus_u64 : ℕ → ℕ → ℕ
plus_u64 a b = (a + b) % 2 ^ 64

-- The message of a response in a buffer of `buffer_size`. It is written before its length is
-- compared with the buffer's, so `none` is a write past the end of the buffer.
unfoldable pub response_message : ℕ → Header → ℕ → List ℕ → Option (List ℕ)
response_message buffer_size h status response =
    let packed = pack_message 0 h.request_id type_response status h.func_id response in
    if ltb buffer_size (header_size + length response)
    then none
    else if ltb buffer_size packed.0
    then some (pack_message 0 h.request_id type_response status_internal_error h.func_id []).1
    else some (take packed.0 packed.1)

-- How a buffer of received bytes is left, and what one round of the loop does.
pub data Processed (S : Type 0) : Type 0 where
  waiting : Server S → List ℕ → Processed S
  closing : Server S → Processed S
  overrun : Processed S

pub data Round (S : Type 0) : Type 0 where
  stops : Processed S → Round S
  goes : Server S → List ℕ → Round S

module _ {S : Type 0} (calls : Calls S) where
  -- The end of `process_request`
  unfoldable pub respond : Server S → Header → ℕ → List ℕ → Option (Server S)
  unfolding response_message
  respond s h status response = elim (response_message s.buffer_size h status response) [
    | none ↦ none
    | some message ↦ some (record s {
      bytes_sent = plus_u64 s.bytes_sent (calls.accepts message);
      sent = message ∷ s.sent;
    })
  ]

  -- The call of a handler in `process_request`
  unfoldable pub handled : Server S → ℕ × List ℕ × S → Server S
  handled s (status, response, program) =
      if (status % 256) == status_success
      then record s { program = program; requests_processed = plus_u64 s.requests_processed 1 }
      else record s { program = program; requests_failed = plus_u64 s.requests_failed 1 }

  -- `process_request`
  unfoldable pub process_request : Server S → Header → List ℕ → Option (Server S)
  unfolding respond handled
  process_request s h payload =
      let t = record s { requests_received = plus_u64 s.requests_received 1 } in
      elim (lookup s.registry h.func_id) [
        | none ↦ respond t h status_func_not_found []
        | some (handler, user_context) ↦
            let r = calls.invoke handler user_context payload s.program in
            if handler == 0
            then respond t h status_func_not_found []
            else respond (handled t r) h (r.0 % 256) r.1
      ]

  -- A round of the loop of `handle_connection_data` on the bytes in the buffer.
  unfoldable pub round : Server S → List ℕ → Round S
  round s rx =
      if ltb (length rx) header_size then stops (waiting s rx) else (elim (unpack_header rx) [
        | fail ↦ stops (closing s)
        | fault ↦ stops overrun
        | ok h ↦
            if ltb h.total_len header_size || ltb s.buffer_size h.total_len
            then stops (closing s)
            else if ltb (length rx) h.total_len
            then stops (waiting s rx)
            else (elim (process_request s h
                (take (h.total_len - header_size) (drop header_size rx))) [
                  | none ↦ stops overrun
                  | some t ↦ goes t (drop h.total_len rx)
                ])
      ])

  -- The loop. A round takes at least the 12 bytes of a header, so as many rounds as there are bytes
  -- are enough.
  unfoldable pub process_messages : ℕ → Server S → List ℕ → Processed S
  process_messages zero s rx = waiting s rx
  process_messages (suc n) s rx = elim (round s rx) [
    | stops p ↦ p
    | goes t rest ↦ process_messages n t rest
  ]

  unfoldable pub process_buffer : Server S → List ℕ → Processed S
  process_buffer s rx = process_messages (length rx) s rx

  -- What becomes of a connection's buffer when `b` is received after the bytes that wait there.
  abbrev pub receive : Processed S → List ℕ → Processed S
  receive (waiting s rx) b = process_buffer s (rx ++ b)
  receive (closing s) b = closing s
  receive overrun b = overrun

  -- The pieces of a stream, received one after the other.
  unfoldable pub receive_all : Processed S → List (List ℕ) → Processed S
  receive_all p [] = p
  receive_all p (b ∷ bs) = receive_all (receive p b) bs
