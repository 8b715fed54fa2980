-- ===== src/Rpc/Client.antt =====
-- src/rpc/client/rpc_client.c: calls. The channel's socket is the list of what arrives on it. A
-- pointer argument is not NULL, and a request is given with its length.
pub mod Receive
pub mod Response
pub mod Call
use e_roole.Prelude.{
  ℕ, zero, suc, ◌+◌, ◌-◌, ◌%◌, ◌^◌, not, Bool, true, false, List, [], ◌∷◌, ◌++◌, Option, none, some,
  length, take, drop, ltb, ◌==◌, if◌then◌else◌,
}
use mathlib.Core.Option
use e_roole.Wire.Reader.{ok, fail, fault}
use e_roole.Rpc.Frame.{Header, header_size, pack_message, unpack_header}
use e_roole.Rpc.Server.{
  type_request, type_response, status_success, status_bad_argument, status_internal_error,
  status_network, status_timeout,
}

-- Bytes, or the end of what select and recv give: a timeout, an error, or the peer's close.
pub data Arrival : Type 0 where
  got : List ℕ → Arrival
  broken : Arrival

pub record Client : Type 0 where
  pub connected : Bool
  pub next_request_id : ℕ
  pub local_node_id : ℕ
  pub buffer_size : ℕ

-- The client that `rpc_client_connect` returns, where its calls of the system succeed.
unfoldable pub connect : ℕ → ℕ → Option Client
connect remote_port buffer_size =
    if (remote_port == 0)
    then none
    else if (buffer_size == 0)
    then none
    else some (record {
      connected = true;
      next_request_id = 1;
      local_node_id = 0;
      buffer_size = buffer_size;
    })

-- What recv leaves of a piece stays in the socket.
abbrev pub left_over : List ℕ → List Arrival → List Arrival
left_over [] rest = rest
left_over (x ∷ xs) rest = got (x ∷ xs) ∷ rest

-- `recv_exact`: the bytes, or `none` for -1, and what is left on the socket. A read that gets nothing
-- is the peer's close, and a socket on which nothing comes any more is a timeout.
unfoldable pub recv_exact : ℕ → List Arrival → Option (List ℕ) × List Arrival
recv_exact zero arrivals = (some [], arrivals)
recv_exact (suc n) [] = (none, [])
recv_exact (suc n) (broken ∷ arrivals) = (none, arrivals)
recv_exact (suc n) (got [] ∷ arrivals) = (none, arrivals)
recv_exact (suc n) (got (x ∷ xs) ∷ arrivals) =
    let more = recv_exact (n - length xs) arrivals in
    if ltb n (length xs)
    then (some (x ∷ take n xs), left_over (drop n xs) arrivals)
    else (Option.map (λ bytes. x ∷ (xs ++ bytes)) more.0, more.1)

-- The answer to a call: the status and the response, with what is left on the socket.
pub record Answer : Type 0 where
  pub status : ℕ
  pub response : List ℕ
  pub socket : List Arrival

abbrev pub failed : ℕ → List Arrival → Answer
failed status socket = record { status = status; response = []; socket = socket }

-- The response's payload, where `alloc` tells whether there is memory for it.
abbrev pub with_payload : Header → Option (List ℕ) × List Arrival → Answer
with_payload h (none, rest) = failed status_timeout rest
with_payload h (some payload, rest) = record {
  status = h.status;
  response = payload;
  socket = rest;
}

unfoldable pub receive_payload : Header → Bool → List Arrival → Answer
receive_payload h alloc socket =
    if (h.total_len - header_size) == 0
    then record { status = h.status; response = []; socket = socket }
    else if not alloc
    then failed status_internal_error socket
    else with_payload h (recv_exact (h.total_len - header_size) socket)

-- The checks of the header of the response to the request with the id.
unfoldable pub receive_checked : ℕ → Bool → Header → List Arrival → Answer
receive_checked request_id alloc h socket =
    if not (h.request_id == request_id)
    then failed status_network socket
    else if not (h.type == type_response)
    then failed status_network socket
    else receive_payload h alloc socket

-- The response to the request with the id.
abbrev pub with_header : ℕ → Bool → Option (List ℕ) × List Arrival → Answer
with_header request_id alloc (none, rest) = failed status_timeout rest
with_header request_id alloc (some header_buf, rest) = elim (unpack_header header_buf) [
  | fail ↦ failed status_network rest
  | fault ↦ failed status_network rest
  | ok h ↦ receive_checked request_id alloc h rest
]

unfoldable pub receive_response : ℕ → Bool → List Arrival → Answer
receive_response request_id alloc socket =
    with_header request_id alloc (recv_exact header_size socket)

-- The message of a request of this client, and the client that counted it.
abbrev pub request_message : Client → ℕ → List ℕ → ℕ × List ℕ
request_message c func_id request =
    pack_message c.local_node_id c.next_request_id type_request status_success func_id request

abbrev pub counted : Client → Client
counted c = record c { next_request_id = (c.next_request_id + 1) % 2 ^ 32 }

-- `rpc_client_call`, where `sent` is what send returns, 0 for an error: the client, the message that
-- was handed to send, and the answer.
unfoldable pub call :
    Client → ℕ → List ℕ → ℕ → Bool → List Arrival → Client × Option (List ℕ) × Answer
call c func_id request sent alloc socket =
    if not c.connected
    then (c, none, failed status_internal_error socket)
    else if ltb c.buffer_size (length request + header_size)
    then (counted c, none, failed status_bad_argument socket)
    else (
      counted c,
      some (take (request_message c func_id request).0 (request_message c func_id request).1),
      (if not (sent == (request_message c func_id request).0)
          then failed status_network socket
          else receive_response c.next_request_id alloc socket),
    )

-- `rpc_client_send_async`: whether it succeeded, the client and the message handed to send.
unfoldable pub send_async : Client → ℕ → List ℕ → ℕ → Bool × Client × Option (List ℕ)
send_async c func_id request sent =
    if not c.connected
    then (false, c, none)
    else if ltb c.buffer_size (length request + header_size)
    then (false, counted c, none)
    else (
      (sent == (request_message c func_id request).0),
      counted c,
      some (take (request_message c func_id request).0 (request_message c func_id request).1),
    )
