-- ===== src/Rpc/Client/Call.antt =====
-- A call from src/rpc/client/rpc_client.c to src/rpc/server/rpc_server.c and back.
use e_roole.Prelude.{
  ℕ, ◌+◌, ◌%◌, ◌≤◌, ◌≡◌, ◌≢◌, refl, sym, ap, ◌∙◌, true, false, List, [], ◌∷◌, ◌++◌, some, length,
  append-nil, ltb, le→ltb, ne→==, ==_refl, ◌==◌, arith, Bool-cases, inl, inr,
}
use e_roole.Rpc.Frame.{header_size, max_total_len}
use e_roole.Rpc.Registry.{lookup}
use e_roole.Rpc.Server.{
  Calls, Server, plus_u64, waiting, type_request, status_success, respond, handled, process_request,
  receive_all,
}
use e_roole.Rpc.Server.Stream.{joined}
use e_roole.Rpc.Server.Frames.{
  Request, Fits, request_header, request_bytes, serve_all, receive_all-serve_all,
}
use e_roole.Rpc.Client.{Client, Arrival, Answer, request_message, counted, call}
use e_roole.Rpc.Client.Receive.{Pieces}
use e_roole.Rpc.Client.Response.{
  response_bytes, receive_response-Pieces, take-pack_message, response_message-fits,
}

handled-keeps :
    {S : Type 0} (calls : Calls S) (s : Server S) (status : ℕ) (response : List ℕ) (program : S)
    → let t = handled calls s (status, response, program) in
      (t.program ≡ program) × (t.sent ≡ s.sent) × (t.buffer_size ≡ s.buffer_size)
unfolding handled
handled-keeps calls s status response program =
    elim (Bool-cases ((status % 256) == status_success)) [
      | inl done ↦ rw done (refl, refl, refl)
      | inr bad ↦ rw bad (refl, refl, refl)
    ]

-- The request that a client's call makes.
abbrev pub request_of : Client → ℕ → List ℕ → Request
request_of c func_id request = record {
  node_id = c.local_node_id;
  request_id = c.next_request_id;
  func_id = func_id;
  payload = request;
}

-- The handler's status is cut to a byte, and then, in the response's header, to four bits.
abbrev pub answer_of : ℕ → List ℕ → Answer
answer_of status response = record {
  status = (status % 256) % 16;
  response = response;
  socket = [];
}

module _ {S : Type 0} (calls : Calls S) (s : Server S) (c : Client) (func_id : ℕ) (request : List ℕ)
    (handler user_context status : ℕ) (response : List ℕ) (program : S)
    (connected : c.connected ≡ true)
    (found : lookup s.registry func_id ≡ some (handler, user_context)) (real : handler ≢ 0)
    (does : calls.invoke handler user_context request s.program ≡ (status, response, program))
    (room : length request + header_size ≤ c.buffer_size)
    (fits : Fits s.buffer_size (request_of c func_id request))
    (reply_room : header_size + length response ≤ s.buffer_size)
    (reply_small : header_size + length response ≤ max_total_len) where
  abbrev reply : List ℕ
  reply = response_bytes c.next_request_id (status % 256) func_id response

  process_request-reply :
      (t : Server S) × (process_request calls s
          (request_header (request_of c func_id request))
          request
        ≡ some t)
      × (t.program ≡ program)
      × (t.sent ≡ reply ∷ s.sent)
  unfolding process_request respond
  process_request-reply =
      let h = request_header (request_of c func_id request) in
      let start = record s { requests_received = plus_u64 s.requests_received 1 } in
      let after = handled calls start (status, response, program) in
      let (same, kept, size) = handled-keeps calls start status response program in
      let message =
        response_message-fits after.buffer_size h (status % 256) response (omega (arith, size))
          reply_small in
      let not_null = ne→== handler 0 real in
      let invoked : process_request calls s h request ≡ (
          let r = calls.invoke handler user_context request s.program in
          respond calls (handled calls start r) h (r.0 % 256) r.1) =
        rw (found, process_request, not_null) refl in
      (
        record after {
          bytes_sent = plus_u64 after.bytes_sent (calls.accepts reply);
          sent = reply ∷ after.sent;
        },
        invoked
            ∙ (ap (λ r. respond calls (handled calls start r) h (r.0 % 256) r.1) does
                ∙ rw (respond, message) refl),
        same,
        ap (◌∷◌ reply) kept,
      )

  call-message :
      (socket : List Arrival)
      → Pieces socket reply
      → call c func_id request (request_message c func_id request).0 true socket
        ≡ (counted c, some (request_message c func_id request).1, answer_of status response)
  unfolding call
  call-message socket pieces =
      let small = fits.small in
      let (size, all) =
        take-pack_message c.local_node_id c.next_request_id type_request status_success func_id
          request small in
      let inside : ltb c.buffer_size (length request + header_size) ≡ false = le→ltb _ _ room in
      let whole = ==_refl (request_message c func_id request).0 in
      let answer =
        receive_response-Pieces c.next_request_id (status % 256) func_id response socket
          fits.request_id reply_small pieces in
      rw (connected, call, inside, all, whole, answer) refl

  -- A client's call of a handler, where the request fits the buffers of both and the response fits
  -- that of the server: however the network cuts the request, the server calls the handler once and
  -- is left with an empty buffer, and what it sends back, however it is cut, gives the client the
  -- handler's response, with the status cut to four bits.
  pub call-receive_all :
      (bs : List (List ℕ))
      → joined bs ≡ (request_message c func_id request).1
      → (t : Server S) × (sent : List ℕ) × (receive_all calls (waiting s []) bs ≡ waiting t [])
        × (t.program ≡ program)
        × (t.sent ≡ sent ∷ s.sent)
        × ((socket : List Arrival)
            → Pieces socket sent
            → call c func_id request (request_message c func_id request).0 true socket
              ≡ (counted c, some (request_message c func_id request).1, answer_of status response))
  unfolding serve_all
  call-receive_all bs whole =
      let (t, done, same, out) = process_request-reply in
      let r = request_of c func_id request in
      let stream : joined bs ≡ request_bytes r ++ [] = whole ∙ sym (append-nil (request_bytes r)) in
      let served_all = receive_all-serve_all calls s (r ∷ []) bs (fits, tt) stream in
      (t, reply, (rw (serve_all, done) at served_all), same, out, call-message)
