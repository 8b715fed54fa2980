-- ===== src/Rpc/Client/Response.antt =====
-- The response from src/rpc/server/rpc_server.c to src/rpc/client/rpc_client.c.
use e_roole.Prelude.{
  ℕ, ◌+◌, ◌-◌, ◌%◌, ◌^◌, ◌≤◌, ◌<◌, ◌≡◌, refl, sym, ap, subst, ◌∙◌, true, false, List, [], ◌∷◌, some,
  length, take, take-length, append-nil, ltb, le→ltb, ==_refl, ◌==◌, arith,
}
use e_roole.Wire.Reader.{ok}
use e_roole.Wire.Word.{write_u16, write_u32}
use e_roole.Rpc.Frame.{
  Header, header_size, max_total_len, header_bytes, pack_message, unpack_header, unpack-pack,
  unpack_header-front,
}
use e_roole.Rpc.Server.{type_response, response_message}
use e_roole.Rpc.Server.Frames.{length-pack_message}
use e_roole.Rpc.Client.{
  Arrival, got, broken, recv_exact, receive_payload, receive_checked, with_header, receive_response,
}
use e_roole.Rpc.Client.Receive.{Pieces, recv_exact-Pieces}

pub length-header_bytes : (h : Header) → length (header_bytes h) ≡ 12
unfolding header_bytes write_u32 write_u16
length-header_bytes h = refl

-- The bytes of a response, as the server packs them.
abbrev pub response_bytes : ℕ → ℕ → ℕ → List ℕ → List ℕ
response_bytes request_id status func_id response =
    (pack_message 0 request_id type_response status func_id response).1

Pieces-nil : (socket : List Arrival) → Pieces socket [] → socket ≡ []
Pieces-nil [] h = refl
Pieces-nil (broken ∷ socket) h = absurd h
Pieces-nil (got [] ∷ socket) h = absurd h
Pieces-nil (got (x ∷ xs) ∷ socket) h = absurd (let e = h.1 in cc)

receive_payload-Pieces :
    (h : Header) (response : List ℕ) (socket : List Arrival)
    → h.total_len - header_size ≡ length response
    → Pieces socket response
    → receive_payload h true socket ≡ record { status = h.status; response = response; socket = [] }
unfolding receive_payload
receive_payload-Pieces h [] socket size pieces =
    rw (receive_payload, size)
      (ap (λ k. record { status = h.status; response = []; socket = k }) (Pieces-nil socket pieces))
receive_payload-Pieces h (r ∷ response) socket size pieces =
    let (left, e, rest) =
      recv_exact-Pieces (r ∷ response) [] socket
        (subst (Pieces socket) (sym (append-nil (r ∷ response))) pieces) in
    let none_left = Pieces-nil left rest in
    let some_bytes : (length (r ∷ response) == 0) ≡ false = ground arith in
    rw (receive_payload, size, e, none_left, some_bytes) refl

-- A response that is on the socket in pieces is taken off it whole.
pub receive_response-Pieces :
    (request_id status func_id : ℕ) (response : List ℕ) (socket : List Arrival)
    → request_id < 2 ^ 32
    → header_size + length response ≤ max_total_len
    → Pieces socket (response_bytes request_id status func_id response)
    → receive_response request_id true socket
      ≡ record { status = status % 16; response = response; socket = [] }
unfolding receive_response receive_checked pack_message
receive_response-Pieces request_id status func_id response socket small fits pieces =
    let n = header_size + length response in
    let h : Header = record {
      total_len = n % 2 ^ 32;
      request_id = request_id;
      sender_id = 0;
      type = type_response;
      status = status;
      func_id = func_id;
    } in
    let got_header : Header = record {
      total_len = n;
      request_id = request_id;
      sender_id = 0;
      type = type_response;
      status = status % 16;
      func_id = func_id;
    } in
    let (left, e, rest) = recv_exact-Pieces (header_bytes h) response socket pieces in
    let front : recv_exact header_size socket ≡ (some (header_bytes h), left) =
      subst (λ k. recv_exact k socket ≡ (some (header_bytes h), left)) (length-header_bytes h) e in
    let read =
      unpack-pack 0 request_id type_response status func_id response small (omega arith)
        (omega arith) in
    let fine : ltb max_total_len n ≡ false = le→ltb max_total_len n fits in
    let plain =
      unpack_header-front (header_bytes h) [] response (omega (arith, length-header_bytes h)) in
    let header : unpack_header (header_bytes h) ≡ ok got_header =
      ap unpack_header (sym (append-nil (header_bytes h))) ∙ (plain ∙ (rw fine at read)) in
    let id = ==_refl request_id in
    rw (receive_response, front, with_header, header, receive_checked, id)
      (receive_payload-Pieces got_header response left (omega arith) rest)

pub take-pack_message :
    (node_id request_id type status func_id : ℕ) (payload : List ℕ)
    → header_size + length payload ≤ max_total_len
    → let packed = pack_message node_id request_id type status func_id payload in
      (packed.0 ≡ header_size + length payload) × (take packed.0 packed.1 ≡ packed.1)
unfolding pack_message
take-pack_message node_id request_id type status func_id payload fits =
    let packed = pack_message node_id request_id type status func_id payload in
    let size : packed.0 ≡ header_size + length payload = omega arith in
    let all : packed.0 ≡ length packed.1 =
      size ∙ sym (length-pack_message node_id request_id type status func_id payload) in
    (size, ap (λ n. take n packed.1) all ∙ take-length packed.1)

pub response_message-fits :
    (buffer_size : ℕ) (h : Header) (status : ℕ) (response : List ℕ)
    → header_size + length response ≤ buffer_size
    → header_size + length response ≤ max_total_len
    → response_message buffer_size h status response
      ≡ some (response_bytes h.request_id status h.func_id response)
unfolding response_message
response_message-fits buffer_size h status response room fits =
    let (size, all) =
      take-pack_message 0 h.request_id type_response status h.func_id response fits in
    let inside : ltb buffer_size (header_size + length response) ≡ false = le→ltb _ _ room in
    let fine : ltb buffer_size
          (pack_message 0 h.request_id type_response status h.func_id response).0
        ≡ false =
      le→ltb buffer_size _ (omega (arith, size)) in
    rw (inside, fine, all) refl
