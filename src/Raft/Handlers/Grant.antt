-- ===== src/Raft/Handlers/Grant.antt =====
-- When the RequestVote handler of raft_handlers.c grants a vote.
use e_roole.Prelude.{
  ℕ, ◌≤◌, ◌<◌, ◌≡◌, ◌⊎◌, ◌↔◌, refl, true, false, List, [], append-nil, some, arith, length, ◌^◌,
  ltb, inl, inr, Bool-cases,
}
use e_roole.Wire.Reader.{Parsed, ok, fail, fault}
use e_roole.Raft.Types.{RequestVoteReq}
use e_roole.Raft.Wire.Vote.{
  IsVoteReq, serialize_request_vote_req, deserialize_request_vote_req,
  deserialize_request_vote_resp, deserialize-serialize_request_vote_req,
  deserialize-serialize_request_vote_resp, deserialize_request_vote_req-ne-fault,
  serialize_request_vote_resp-some,
}
use e_roole.Raft.State.{
  Raft, become_follower, reset_election_timer, is_log_up_to_date, get_last_log_index,
  get_last_log_term,
}
use e_roole.Raft.Handlers.{
  Pauses, no_pauses, adopt_term, request_vote, success, bad_argument, handle_request_vote,
}

-- The node may vote for the candidate: the request's term is later than its own, or the same and
-- its vote in that term is free or the candidate's.
abbrev pub MayVote : Raft → RequestVoteReq → Type 0
MayVote s req =
    (s.persistent.current_term < req.term)
    ⊎ ((s.persistent.current_term ≡ req.term)
        × ((s.persistent.voted_for ≡ 0) ⊎ (s.persistent.voted_for ≡ req.candidate_id)))

pub is_log_up_to_date-adopt_term :
    (s : Raft) (term i l : ℕ)
    → is_log_up_to_date (adopt_term s term (λ r. r)) i l ≡ is_log_up_to_date s i l
unfolding adopt_term become_follower is_log_up_to_date get_last_log_index get_last_log_term
is_log_up_to_date-adopt_term s term i l = elim (Bool-cases (ltb s.persistent.current_term term)) [
  | inl newer ↦ rw newer refl
  | inr older ↦ rw older refl
]

module _ (s : Raft) (req : RequestVoteReq) (now rand : ℕ) where
  -- With no other thread in its pauses, the handler grants the vote exactly when it may vote for
  -- the candidate and the candidate's log is at least as up to date as its own.
  pub request_vote-granted_iff :
      ((request_vote s req no_pauses now rand).0.vote_granted ≡ true)
      ↔ (MayVote s req × (is_log_up_to_date s req.last_log_index req.last_log_term ≡ true))
  unfolding request_vote
  request_vote-granted_iff =
      let same = is_log_up_to_date-adopt_term s req.term req.last_log_index req.last_log_term in
      (ground (arith, same), ground (arith, same))

  -- A granted vote is stored: the node is then in the request's term, its vote is the candidate's,
  -- and the response carries that term.
  pub request_vote-stores :
      (request_vote s req no_pauses now rand).0.vote_granted ≡ true
      → let (resp, s') = request_vote s req no_pauses now rand in
        (s'.persistent.current_term ≡ req.term)
        × (s'.persistent.voted_for ≡ req.candidate_id)
        × (resp.term ≡ req.term)
  unfolding request_vote become_follower reset_election_timer
  request_vote-stores h = ground arith

  -- A request of the node's own term that is not granted changes nothing, nor does one of an
  -- earlier term; the response then carries the node's term.
  pub request_vote-refused :
      req.term ≤ s.persistent.current_term
      → (request_vote s req no_pauses now rand).0.vote_granted ≡ false
      → request_vote s req no_pauses now rand
        ≡ (record { term = s.persistent.current_term; vote_granted = false }, s)
  unfolding request_vote become_follower reset_election_timer
  request_vote-refused l h = ground arith

  -- The handler as the RPC server calls it: on the bytes of any request whose fields fit their C
  -- types it succeeds, with 9 bytes that are read back as the response of `request_vote`, in the
  -- state of `request_vote`; the terms involved fit 64 bits.
  pub handle_request_vote-serialized :
      (pauses : Pauses) (bytes : List ℕ) (size : ℕ)
      → IsVoteReq req
      → 26 ≤ size
      → serialize_request_vote_req req size ≡ some bytes
      → (request_vote s req pauses now rand).0.term < 2 ^ 64
      → (reply : List ℕ) × (handle_request_vote s bytes pauses now rand
          ≡ (success reply, (request_vote s req pauses now rand).1))
        × (length reply ≡ 9)
        × (deserialize_request_vote_resp reply ≡ ok (request_vote s req pauses now rand).0)
  unfolding handle_request_vote
  handle_request_vote-serialized pauses bytes size fits room e small =
      let resp = (request_vote s req pauses now rand).0 in
      let (b, w, r) = deserialize-serialize_request_vote_req req size [] fits room in
      let (reply, w', l, r') =
        deserialize-serialize_request_vote_resp resp 16 [] small (omega arith) in
      let same : b ≡ bytes = cc in
      let read : deserialize_request_vote_req bytes ≡ ok req = rw (append-nil, same) at r in
      (reply, rw (read, handle_request_vote, w') refl, l, rw append-nil at r')

-- Whatever the bytes, the handler does not read past the end of the request; it refuses them as a
-- bad argument exactly when the deserialiser refuses them, and leaves the node's state then.
pub handle_request_vote-total :
    (s : Raft) (request : List ℕ) (pauses : Pauses) (now rand : ℕ)
    → ((handle_request_vote s request pauses now rand ≡ (bad_argument, s))
        × (deserialize_request_vote_req request ≡ fail))
      ⊎ ((req : RequestVoteReq) × (reply : List ℕ) × (deserialize_request_vote_req request ≡ ok req)
          × (handle_request_vote s request pauses now rand
              ≡ (success reply, (request_vote s req pauses now rand).1)))
unfolding handle_request_vote
handle_request_vote-total s request pauses now rand =
    by_cases (deserialize_request_vote_req request) refl
  where
    by_cases :
        (p : Parsed RequestVoteReq)
        → deserialize_request_vote_req request ≡ p
        → ((handle_request_vote s request pauses now rand ≡ (bad_argument, s))
            × (deserialize_request_vote_req request ≡ fail))
          ⊎ ((req : RequestVoteReq) × (reply : List ℕ) × (deserialize_request_vote_req request
                ≡ ok req)
              × (handle_request_vote s request pauses now rand
                  ≡ (success reply, (request_vote s req pauses now rand).1)))
    by_cases (ok req) e =
        let resp = (request_vote s req pauses now rand).0 in
        let (reply, w) = serialize_request_vote_resp-some resp 16 (omega arith) in
        inr (req, reply, e, rw (e, handle_request_vote, w) refl)
    by_cases fail e = inl (rw (e, handle_request_vote) refl, e)
    by_cases fault e = absurd (deserialize_request_vote_req-ne-fault request e)
