-- ===== src/Rpc/Server/Stream.antt =====
-- The stream of bytes that the server of src/rpc/server/rpc_server.c receives on a connection, cut
-- into pieces by the network.
use e_roole.Prelude.{
  ℕ, zero, suc, ◌-◌, ◌≤◌, ◌<◌, ◌≡◌, ◌≢◌, ◌⊎◌, inl, inr, refl, sym, ap, ◌∙◌, ◌||◌, List, [], ◌∷◌,
  ◌++◌, false, length, length-append, length-drop, take, drop, take-append_left, drop-append_left,
  append_assoc, append-nil, ltb, le→ltb, arith, Bool-cases, Option-cases,
}
use e_roole.Wire.Reader.{Parsed, ok, fail, fault}
use e_roole.Rpc.Frame.{Header, header_size, unpack_header, unpack_header-append}
use e_roole.Rpc.Server.{
  Calls, Server, Processed, waiting, closing, overrun, stops, goes, process_request, round,
  process_messages, process_buffer, receive, receive_all,
}

-- A stream of pieces put together.
abbrev pub joined : List (List ℕ) → List ℕ
joined [] = []
joined (b ∷ bs) = b ++ joined bs

module _ {S : Type 0} (calls : Calls S) where
  -- What a round makes of a buffer does not depend on the bytes that may follow.
  abbrev Settled : Server S → List ℕ → Type 0
  Settled s a =
      (round calls s a ≡ stops (waiting s a))
      ⊎ (((b : List ℕ) → round calls s (a ++ b) ≡ stops (closing s))
          ⊎ (((b : List ℕ) → round calls s (a ++ b) ≡ stops overrun)
              ⊎ ((t : Server S) × (rest : List ℕ) × (length rest < length a)
                  × ((b : List ℕ) → round calls s (a ++ b) ≡ goes t (rest ++ b)))))

  payload-append :
      (n : ℕ) (a b : List ℕ)
      → header_size ≤ n
      → n ≤ length a
      → take (n - header_size) (drop header_size (a ++ b))
        ≡ take (n - header_size) (drop header_size a)
  payload-append n a b low high =
      ap (take (n - header_size)) (drop-append_left header_size a b (omega arith))
      ∙ take-append_left (n - header_size) (drop header_size a) b
          (omega (arith, length-drop header_size a))

  long-append : (a b : List ℕ) (n : ℕ) → n ≤ length a → ltb (length (a ++ b)) n ≡ false
  long-append a b n h = le→ltb (length (a ++ b)) n (omega (arith, length-append a b))

  module _ (s : Server S) (a : List ℕ) (long : header_size ≤ length a) where
    accepted :
        (h : Header)
        → ((b : List ℕ) → unpack_header (a ++ b) ≡ ok h)
        → (ltb h.total_len header_size || ltb s.buffer_size h.total_len) ≡ false
        → h.total_len ≤ length a
        → Settled s a
    unfolding round
    accepted h e good whole =
        let n = h.total_len in
        let low : header_size ≤ n = ground arith in
        let payload = take (n - header_size) (drop header_size a) in
        elim (Option-cases (process_request calls s h payload)) [
          | inl bad ↦ inr (
              inr (
                inl λ b.
                  rw
                    (
                      long-append a b header_size long,
                      round,
                      e b,
                      good,
                      long-append a b n whole,
                      payload-append n a b low whole,
                      bad,
                    )
                    refl))
          | inr (t, done) ↦ inr (
              inr (
                inr (
                  t,
                  drop n a,
                  omega (arith, length-drop n a),
                  λ b.
                      rw
                        (
                          long-append a b header_size long,
                          round,
                          e b,
                          good,
                          long-append a b n whole,
                          payload-append n a b low whole,
                          done,
                          drop-append_left n a b whole,
                        )
                        refl,
                )))
        ]

    with_header :
        (p : Parsed Header) → p ≢ fault → ((b : List ℕ) → unpack_header (a ++ b) ≡ p) → Settled s a
    unfolding round
    with_header fault ne e = absurd (ne refl)
    with_header fail ne e = inr (inl λ b. rw (long-append a b header_size long, round, e b) refl)
    with_header (ok h) ne e =
        elim (Bool-cases (ltb h.total_len header_size || ltb s.buffer_size h.total_len)) [
          | inl bad ↦ inr (inl λ b. rw (long-append a b header_size long, round, e b, bad) refl)
          | inr good ↦ elim (Bool-cases (ltb (length a) h.total_len)) [
            | inl part ↦
                let here : unpack_header a ≡ ok h = rw (append-nil a) at (e []) in
                inl (rw (le→ltb (length a) header_size long, round, here, good, part) refl)
            | inr whole ↦ accepted h e good (ground arith)
          ]
        ]

  round-Settled : (s : Server S) (a : List ℕ) → Settled s a
  unfolding round
  round-Settled s a = elim (Bool-cases (ltb (length a) header_size)) [
    | inl short ↦ inl (rw (short, round) refl)
    | inr enough ↦
        let long : header_size ≤ length a = ground arith in
        let (p, ne, e) = unpack_header-append a long in with_header s a long p ne e
  ]

  abbrev pub Stepped : Server S → List ℕ → Type 0
  Stepped s a =
      ((p : Processed S) × (round calls s a ≡ stops p))
      ⊎ ((t : Server S) × (rest : List ℕ) × (length rest < length a)
          × (round calls s a ≡ goes t rest))

  pub round-Stepped : (s : Server S) (a : List ℕ) → Stepped s a
  round-Stepped s a = elim (round-Settled s a) [
    | inl wait ↦ inl (waiting s a, wait)
    | inr (inl close) ↦ inl (closing s, rw (append-nil a) at (close []))
    | inr (inr (inl over)) ↦ inl (overrun, rw (append-nil a) at (over []))
    | inr (inr (inr (t, rest, less, e))) ↦
        inr (t, rest, less, rw (append-nil a, append-nil rest) at (e []))
  ]

  -- Rounds beyond the bytes in the buffer change nothing.
  process_messages-enough :
      (n m : ℕ) (s : Server S) (a : List ℕ)
      → length a ≤ n
      → length a ≤ m
      → process_messages calls n s a ≡ process_messages calls m s a
  unfolding process_messages round
  process_messages-enough zero zero s a h k = refl
  process_messages-enough zero (suc m) s [] h k = refl
  process_messages-enough zero (suc m) s (x ∷ a) h k = absurd (omega arith)
  process_messages-enough (suc n) zero s [] h k = refl
  process_messages-enough (suc n) zero s (x ∷ a) h k = absurd (omega arith)
  process_messages-enough (suc n) (suc m) s a h k = elim (round-Stepped s a) [
    | inl (p, e) ↦ rw (process_messages, e) refl
    | inr (t, rest, less, e) ↦
        rw (process_messages, e) (process_messages-enough n m t rest (omega arith) (omega arith))
  ]

  pub process_messages-stops :
      (s : Server S) (a : List ℕ) (p : Processed S)
      → round calls s a ≡ stops p
      → process_buffer calls s a ≡ p
  unfolding process_buffer process_messages
  process_messages-stops s a p e =
      process_messages-enough (length a) (suc (length a)) s a (omega arith) (omega arith)
      ∙ rw (process_messages, e) refl

  pub process_messages-goes :
      (s t : Server S) (a rest : List ℕ)
      → round calls s a ≡ goes t rest
      → length rest ≤ length a
      → process_buffer calls s a ≡ process_buffer calls t rest
  unfolding process_buffer process_messages
  process_messages-goes s t a rest e less =
      process_messages-enough (length a) (suc (length a)) s a (omega arith) (omega arith)
      ∙ rw (process_messages, e)
          (process_messages-enough (length a) (length rest) t rest less (omega arith))

  process_messages-append :
      (n : ℕ) (s : Server S) (a b : List ℕ)
      → length a ≤ n
      → process_buffer calls s (a ++ b) ≡ receive calls (process_messages calls n s a) b
  unfolding process_messages
  process_messages-append zero s [] b h = refl
  process_messages-append zero s (x ∷ a) b h = absurd (omega arith)
  process_messages-append (suc n) s a b h = elim (round-Settled s a) [
    | inl wait ↦ rw (process_messages, wait) refl
    | inr (inl close) ↦
        let now : round calls s a ≡ stops (closing s) = rw (append-nil a) at (close []) in
        rw (process_messages, now) (process_messages-stops s (a ++ b) (closing s) (close b))
    | inr (inr (inl over)) ↦
        let now : round calls s a ≡ stops overrun = rw (append-nil a) at (over []) in
        rw (process_messages, now) (process_messages-stops s (a ++ b) overrun (over b))
    | inr (inr (inr (t, rest, less, e))) ↦
        let now : round calls s a ≡ goes t rest = rw (append-nil a, append-nil rest) at (e []) in
        rw (process_messages, now)
          (process_messages-goes s t (a ++ b) (rest ++ b) (e b)
              (omega (arith, length-append a b, length-append rest b))
            ∙ process_messages-append n t rest b (omega arith))
  ]

  -- Bytes that come in two pieces are treated as if they had come in one.
  pub process_buffer-append :
      (s : Server S) (a b : List ℕ)
      → process_buffer calls s (a ++ b) ≡ receive calls (process_buffer calls s a) b
  unfolding process_buffer
  process_buffer-append s a b = process_messages-append (length a) s a b (omega arith)

  pub process_buffer-nil : (s : Server S) → process_buffer calls s [] ≡ waiting s []
  unfolding process_buffer process_messages
  process_buffer-nil s = refl

  receive_all-from :
      (s : Server S) (a : List ℕ) (bs : List (List ℕ))
      → receive_all calls (process_buffer calls s a) bs ≡ process_buffer calls s (a ++ joined bs)
  unfolding receive_all
  receive_all-from s a [] = rw (append-nil a) refl
  receive_all-from s a (b ∷ bs) =
      ap (λ p. receive_all calls p bs) (sym (process_buffer-append s a b))
      ∙ (receive_all-from s (a ++ b) bs
          ∙ ap (process_buffer calls s) (append_assoc a b (joined bs)))

  -- However the network cuts a stream of bytes into pieces, the server is left as if it had received
  -- the whole stream at once.
  pub receive_all-joined :
      (s : Server S) (bs : List (List ℕ))
      → receive_all calls (waiting s []) bs ≡ process_buffer calls s (joined bs)
  unfolding process_buffer process_messages
  receive_all-joined s bs = receive_all-from s [] bs
