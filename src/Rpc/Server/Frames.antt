-- ===== src/Rpc/Server/Frames.antt =====
-- Requests as rpc_pack_message writes them, in the stream that src/rpc/server/rpc_server.c receives.
use e_roole.Prelude.{
  ℕ, ◌+◌, ◌-◌, ◌%◌, ◌^◌, ◌≤◌, ◌<◌, ◌≡◌, inl, inr, refl, sym, ap, subst, ◌∙◌, ◌||◌, false, List, [],
  ◌∷◌, ◌++◌, Option, none, some, length, length-append, take, drop, take-append, drop-append, map,
  append-nil, All, ltb, le→ltb, ◌==◌, arith, Bool-cases, Option-cases,
}
use e_roole.Wire.Reader.{ok}
use e_roole.Wire.Word.{write_u16, write_u32}
use e_roole.Rpc.Frame.{
  Header, header_size, max_total_len, header_bytes, pack_message, unpack_header,
  unpack_header-front, unpack-pack,
}
use e_roole.Rpc.Registry.{lookup}
use e_roole.Rpc.Server.{
  Calls, Server, plus_u64, waiting, overrun, stops, goes, type_request, status_success,
  status_func_not_found, respond, handled, process_request, round, process_buffer, receive_all,
}
use e_roole.Rpc.Server.Stream.{
  joined, process_messages-stops, process_messages-goes, process_buffer-nil, receive_all-joined,
}

-- What a client asks.
pub record Request : Type 0 where
  pub node_id : ℕ
  pub request_id : ℕ
  pub func_id : ℕ
  pub payload : List ℕ

abbrev pub request_len : Request → ℕ
request_len r = header_size + length r.payload

abbrev pub request_header : Request → Header
request_header r = record {
  total_len = request_len r;
  request_id = r.request_id;
  sender_id = r.node_id;
  type = type_request;
  status = status_success;
  func_id = r.func_id;
}

abbrev pub request_bytes : Request → List ℕ
request_bytes r =
    (pack_message r.node_id r.request_id type_request status_success r.func_id r.payload).1

-- The ids fit their types, and the request a buffer of `size` bytes.
pub record Fits (size : ℕ) (r : Request) : Type 0 where
  pub request_id : r.request_id < 2 ^ 32
  pub node_id : r.node_id < 2 ^ 16
  pub room : request_len r ≤ size
  pub small : request_len r ≤ max_total_len

pub length-pack_message :
    (node_id request_id type status func_id : ℕ) (payload : List ℕ)
    → length (pack_message node_id request_id type status func_id payload).1
      ≡ header_size + length payload
unfolding pack_message header_bytes write_u32 write_u16
length-pack_message node_id request_id type status func_id payload = omega arith

drop-pack_message :
    (node_id request_id type status func_id : ℕ) (payload rest : List ℕ)
    → drop header_size ((pack_message node_id request_id type status func_id payload).1 ++ rest)
      ≡ payload ++ rest
unfolding pack_message header_bytes write_u32 write_u16
drop-pack_message node_id request_id type status func_id payload rest = refl

unpack_header-request :
    {size : ℕ} (r : Request) (rest : List ℕ)
    → Fits size r
    → unpack_header (request_bytes r ++ rest) ≡ ok (request_header r)
unpack_header-request r rest h =
    let read =
      unpack-pack r.node_id r.request_id type_request status_success r.func_id r.payload
        h.request_id h.node_id (omega (arith, h.small)) in
    let fine : ltb max_total_len (request_len r) ≡ false =
      le→ltb max_total_len (request_len r) h.small in
    let n =
      length-pack_message r.node_id r.request_id type_request status_success r.func_id r.payload in
    unpack_header-front (request_bytes r) rest [] (omega (arith, n))
    ∙ (ap unpack_header (append-nil (request_bytes r)) ∙ (rw fine at read))

module _ {S : Type 0} (calls : Calls S) where
  abbrev pub served : Server S → Request → Option (Server S)
  served s r = process_request calls s (request_header r) r.payload

  round-request :
      (s : Server S) (r : Request) (rest : List ℕ)
      → Fits s.buffer_size r
      → round calls s (request_bytes r ++ rest)
        ≡ (elim (served s r) [ none ↦ stops overrun | some t ↦ goes t rest ])
  unfolding round
  round-request s r rest h =
      let bytes = request_bytes r ++ rest in
      let n = request_len r in
      let size =
        length-pack_message r.node_id r.request_id type_request status_success r.func_id
          r.payload in
      let long : n ≤ length bytes = omega (arith, size, length-append (request_bytes r) rest) in
      let room = h.room in
      let good : (ltb n header_size || ltb s.buffer_size n) ≡ false = ground arith in
      let body : take (n - header_size) (drop header_size bytes) ≡ r.payload =
        ap (take (n - header_size)) (
          drop-pack_message r.node_id r.request_id type_request status_success r.func_id r.payload
            rest)
        ∙ (ap (λ k. take k (r.payload ++ rest)) (omega arith) ∙ take-append r.payload rest) in
      let after : drop n bytes ≡ rest =
        subst (λ k. drop k bytes ≡ rest) size (drop-append (request_bytes r) rest) in
      let short = le→ltb (length bytes) header_size (omega arith) in
      let part = le→ltb (length bytes) n long in
      let read = unpack_header-request r rest h in
      elim (Option-cases (served s r)) [
        | inl e ↦ rw (short, round, read, good, part, body, e) refl
        | inr (t, e) ↦ rw (short, round, read, good, part, body, e, after) refl
      ]

  -- What the server makes of a stream of requests: it serves one after the other.
  unfoldable pub serve_all : Server S → List Request → Option (Server S)
  serve_all s [] = some s
  serve_all s (r ∷ rs) = elim (served s r) [ none ↦ none | some t ↦ serve_all t rs ]

  respond-buffer_size :
      (s t : Server S) (h : Header) (status : ℕ) (response : List ℕ)
      → respond calls s h status response ≡ some t
      → t.buffer_size ≡ s.buffer_size
  unfolding respond
  respond-buffer_size s t h status response e = ground arith

  handled-buffer_size :
      (s : Server S) (r : ℕ × List ℕ × S) → (handled calls s r).buffer_size ≡ s.buffer_size
  unfolding handled
  handled-buffer_size s r = ground arith

  pub served-buffer_size :
      (s t : Server S) (h : Header) (payload : List ℕ)
      → process_request calls s h payload ≡ some t
      → t.buffer_size ≡ s.buffer_size
  unfolding process_request
  served-buffer_size s t h payload e = elim (Option-cases (lookup s.registry h.func_id)) [
    | inl missing ↦
        respond-buffer_size _ t h status_func_not_found [] (rw (missing, process_request) at e)
    | inr ((handler, user_context), found) ↦ elim (Bool-cases (handler == 0)) [
      | inl null ↦
          respond-buffer_size _ t h status_func_not_found []
            (rw (found, process_request, null) at e)
      | inr real ↦
          let c = record s { requests_received = plus_u64 s.requests_received 1 } in
          let r = calls.invoke handler user_context payload s.program in
          respond-buffer_size (handled calls c r) t h (r.0 % 256) r.1
            (rw (found, process_request, real) at e)
          ∙ handled-buffer_size c r
    ]
  ]

  serve_all-process_buffer :
      (s : Server S) (rs : List Request)
      → All (Fits s.buffer_size) rs
      → process_buffer calls s (joined (map request_bytes rs))
        ≡ (elim (serve_all s rs) [ none ↦ overrun | some t ↦ waiting t [] ])
  unfolding serve_all
  serve_all-process_buffer s [] h = process_buffer-nil calls s
  serve_all-process_buffer s (r ∷ rs) h =
      let rest = joined (map request_bytes rs) in
      let next = round-request s r rest h.0 in
      elim (Option-cases (served s r)) [
        | inl e ↦ rw (e, serve_all) (process_messages-stops calls s _ overrun (rw e at next))
        | inr (t, e) ↦
            let same = served-buffer_size s t (request_header r) r.payload e in
            rw (e, serve_all)
              (process_messages-goes calls s t _ rest (rw e at next)
                  (omega (arith, length-append (request_bytes r) rest))
                ∙ serve_all-process_buffer t rs (subst (λ n. All (Fits n) rs) (sym same) h.1))
      ]

  -- However the network cuts a stream of requests into pieces, each of which fits the buffer, the
  -- server serves each request once, in the order of the stream, and is left with an empty buffer;
  -- unless it writes a response past the end of the buffer.
  pub receive_all-serve_all :
      (s : Server S) (rs : List Request) (bs : List (List ℕ))
      → All (Fits s.buffer_size) rs
      → joined bs ≡ joined (map request_bytes rs)
      → receive_all calls (waiting s []) bs
        ≡ (elim (serve_all s rs) [ none ↦ overrun | some t ↦ waiting t [] ])
  receive_all-serve_all s rs bs h same =
      receive_all-joined calls s bs
      ∙ (ap (process_buffer calls s) same ∙ serve_all-process_buffer s rs h)
