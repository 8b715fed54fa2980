-- ===== src/Raft/Wire/Vote.antt =====
-- The RequestVote messages of raft_serialization.c.
use e_roole.Prelude.{
  ℕ, ◌^◌, ◌≤◌, ◌<◌, ◌≡◌, ◌≢◌, refl, List, ◌++◌, Option, none, some, length, ltb, if◌then◌else◌,
  arith, le→ltb,
}
use e_roole.Wire.Word.{
  write_u16, write_u32, write_u64, read_u16, read_u64, Decodes-read_u16, Decodes-read_u64,
  Takes-read_u16, Takes-read_u64,
}
use e_roole.Wire.Reader.{
  Parsed, ok, fault, Reader, ◌>>=◌, pure, read_flag, write_flag, checked, Decodes, Decodes-bind,
  Decodes-map, Decodes-read_flag, Takes-bind, Takes-pure, Takes-read_flag, checked-ok,
  checked-ne-fault,
}
use e_roole.Raft.Types.{RequestVoteReq, RequestVoteResp}

pub vote_req_bytes : RequestVoteReq → List ℕ
vote_req_bytes req =
    write_u64 req.term
    ++ (write_u16 req.candidate_id ++ (write_u64 req.last_log_index ++ write_u64 req.last_log_term))

unfoldable pub serialize_request_vote_req : RequestVoteReq → ℕ → Option (List ℕ)
serialize_request_vote_req req buffer_size =
    if ltb buffer_size 26 then none else some (vote_req_bytes req)

pub read_vote_req : Reader RequestVoteReq
read_vote_req = do
  term ← read_u64
  candidate_id ← read_u16
  last_log_index ← read_u64
  last_log_term ← read_u64
  pure (record {
    term = term;
    candidate_id = candidate_id;
    last_log_index = last_log_index;
    last_log_term = last_log_term;
  })

pub deserialize_request_vote_req : List ℕ → Parsed RequestVoteReq
deserialize_request_vote_req buffer = checked 26 read_vote_req buffer

pub vote_resp_bytes : RequestVoteResp → List ℕ
vote_resp_bytes resp = write_u64 resp.term ++ write_flag resp.vote_granted

pub serialize_request_vote_resp : RequestVoteResp → ℕ → Option (List ℕ)
serialize_request_vote_resp resp buffer_size =
    if ltb buffer_size 9 then none else some (vote_resp_bytes resp)

pub read_vote_resp : Reader RequestVoteResp
read_vote_resp = do
  term ← read_u64
  granted ← read_flag
  pure (record { term = term; vote_granted = granted })

pub deserialize_request_vote_resp : List ℕ → Parsed RequestVoteResp
deserialize_request_vote_resp buffer = checked 9 read_vote_resp buffer

-- The fields fit their C types.
abbrev pub IsVoteReq : RequestVoteReq → Type 0
IsVoteReq req =
    (req.term < 2 ^ 64)
    × (req.candidate_id < 2 ^ 16)
    × (req.last_log_index < 2 ^ 64)
    × (req.last_log_term < 2 ^ 64)

Decodes-read_vote_req :
    (req : RequestVoteReq) → IsVoteReq req → Decodes read_vote_req req (vote_req_bytes req)
unfolding read_vote_req vote_req_bytes
Decodes-read_vote_req req (t, c, i, l) = Decodes-bind _ (Decodes-read_u64 _ t) (
    Decodes-bind _ (Decodes-read_u16 _ c)
      (Decodes-bind _ (Decodes-read_u64 _ i) (Decodes-map _ (Decodes-read_u64 _ l))))

pub length-vote_req_bytes : (req : RequestVoteReq) → length (vote_req_bytes req) ≡ 26
unfolding vote_req_bytes write_u64 write_u32 write_u16
length-vote_req_bytes req = refl

Decodes-read_vote_resp :
    (resp : RequestVoteResp)
    → resp.term < 2 ^ 64
    → Decodes read_vote_resp resp (vote_resp_bytes resp)
unfolding read_vote_resp vote_resp_bytes
Decodes-read_vote_resp resp t =
    Decodes-bind _ (Decodes-read_u64 _ t) (Decodes-map _ (Decodes-read_flag _))

length-vote_resp_bytes : (resp : RequestVoteResp) → length (vote_resp_bytes resp) ≡ 9
unfolding vote_resp_bytes write_u64 write_u32 write_u16 write_flag
length-vote_resp_bytes resp = refl

-- A RequestVote request whose fields fit their C types is written into any buffer of at least 26
-- bytes, and reading the written bytes back, with any bytes after them, gives the same request.
pub deserialize-serialize_request_vote_req :
    (req : RequestVoteReq) (buffer_size : ℕ) (more : List ℕ)
    → IsVoteReq req
    → 26 ≤ buffer_size
    → (bytes : List ℕ) × (serialize_request_vote_req req buffer_size ≡ some bytes)
      × (deserialize_request_vote_req (bytes ++ more) ≡ ok req)
unfolding serialize_request_vote_req deserialize_request_vote_req
deserialize-serialize_request_vote_req req buffer_size more h room = (
  vote_req_bytes req,
  rw (le→ltb buffer_size 26 room),
  checked-ok 26 more (Decodes-read_vote_req req h) (omega (arith, length-vote_req_bytes req)),
)

-- A RequestVote response whose term fits 64 bits is written into any buffer of at least 9 bytes,
-- takes 9 bytes, and is read back, whatever follows it.
pub deserialize-serialize_request_vote_resp :
    (resp : RequestVoteResp) (buffer_size : ℕ) (more : List ℕ)
    → resp.term < 2 ^ 64
    → 9 ≤ buffer_size
    → (bytes : List ℕ) × (serialize_request_vote_resp resp buffer_size ≡ some bytes)
      × (length bytes ≡ 9)
      × (deserialize_request_vote_resp (bytes ++ more) ≡ ok resp)
unfolding serialize_request_vote_resp deserialize_request_vote_resp
deserialize-serialize_request_vote_resp resp buffer_size more h room = (
  vote_resp_bytes resp,
  rw (le→ltb buffer_size 9 room),
  length-vote_resp_bytes resp,
  checked-ok 9 more (Decodes-read_vote_resp resp h) (omega (arith, length-vote_resp_bytes resp)),
)

-- No request, however malformed, makes its deserialiser read past the end of the buffer.
pub deserialize_request_vote_req-ne-fault :
    (buffer : List ℕ) → deserialize_request_vote_req buffer ≢ fault
unfolding deserialize_request_vote_req read_vote_req
deserialize_request_vote_req-ne-fault = checked-ne-fault (
    Takes-bind Takes-read_u64 λ _.
      Takes-bind Takes-read_u16
        λ _. Takes-bind Takes-read_u64 λ _. Takes-bind Takes-read_u64 λ _. Takes-pure _)

pub deserialize_request_vote_resp-ne-fault :
    (buffer : List ℕ) → deserialize_request_vote_resp buffer ≢ fault
unfolding deserialize_request_vote_resp read_vote_resp
deserialize_request_vote_resp-ne-fault =
    checked-ne-fault (Takes-bind Takes-read_u64 λ _. Takes-bind Takes-read_flag λ _. Takes-pure _)

-- A response, whatever its fields, fits a buffer of 9 bytes.
pub serialize_request_vote_resp-some :
    (resp : RequestVoteResp) (buffer_size : ℕ)
    → 9 ≤ buffer_size
    → (bytes : List ℕ) × (serialize_request_vote_resp resp buffer_size ≡ some bytes)
unfolding serialize_request_vote_resp
serialize_request_vote_resp-some resp buffer_size room =
    (vote_resp_bytes resp, rw (le→ltb buffer_size 9 room))
