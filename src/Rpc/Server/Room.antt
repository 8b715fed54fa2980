-- ===== src/Rpc/Server/Room.antt =====
-- The room that the loop of src/rpc/server/rpc_server.c leaves in a buffer.
use e_roole.Prelude.{
  ℕ, zero, suc, ◌-◌, ◌≤◌, ◌<◌, ◌≡◌, inl, inr, refl, subst, ◌||◌, false, List, length, take, drop,
  ltb, arith, Bool-cases, Option-cases,
}
use e_roole.Wire.Reader.{Parsed, ok, fail, fault}
use e_roole.Rpc.Frame.{Header, header_size, unpack_header}
use e_roole.Rpc.Server.{
  Calls, Server, Processed, waiting, closing, overrun, Round, stops, goes, process_request, round,
  process_messages, process_buffer,
}
use e_roole.Rpc.Server.Stream.{round-Stepped}
use e_roole.Rpc.Server.Frames.{served-buffer_size}

module _ {S : Type 0} (calls : Calls S) where
  abbrev pub Roomy : ℕ → Processed S → Type 0
  Roomy size (waiting t rx) = (t.buffer_size ≡ size) × (length rx < size)
  Roomy size (closing t) = t.buffer_size ≡ size
  Roomy size overrun = Unit

  abbrev RoundRoomy : ℕ → Round S → Type 0
  RoundRoomy size (stops p) = Roomy size p
  RoundRoomy size (goes t rest) = t.buffer_size ≡ size

  round-RoundRoomy :
      (s : Server S) (a : List ℕ)
      → header_size ≤ s.buffer_size
      → RoundRoomy s.buffer_size (round calls s a)
  unfolding round
  round-RoundRoomy s a big = elim (Bool-cases (ltb (length a) header_size)) [
    | inl short ↦ rw (round, short) (refl, ground arith)
    | inr long ↦ on_header (unpack_header a) refl long
  ]
    where
      on_request :
          (h : Header)
          → unpack_header a ≡ ok h
          → ltb (length a) header_size ≡ false
          → (ltb h.total_len header_size || ltb s.buffer_size h.total_len) ≡ false
          → ltb (length a) h.total_len ≡ false
          → RoundRoomy s.buffer_size (round calls s a)
      on_request h e long good whole =
          elim (Option-cases
            (process_request calls s h (take (h.total_len - header_size) (drop header_size a)))) [
              | inl bad ↦ rw (round, long, e, good, whole, bad) tt
              | inr (t, done) ↦
                  rw (round, long, e, good, whole, done) (served-buffer_size calls s t h _ done)
            ]

      on_header :
          (p : Parsed Header)
          → unpack_header a ≡ p
          → ltb (length a) header_size ≡ false
          → RoundRoomy s.buffer_size (round calls s a)
      on_header fail e long = rw (round, long, e) refl
      on_header fault e long = rw (round, long, e) tt
      on_header (ok h) e long =
          elim (Bool-cases (ltb h.total_len header_size || ltb s.buffer_size h.total_len)) [
            | inl bad ↦ rw (round, long, e, bad) refl
            | inr good ↦ elim (Bool-cases (ltb (length a) h.total_len)) [
              | inl part ↦ rw (round, long, e, good, part) (refl, ground arith)
              | inr whole ↦ on_request h e long good whole
            ]
          ]

  process_messages-Roomy :
      (n : ℕ) (s : Server S) (a : List ℕ)
      → header_size ≤ s.buffer_size
      → length a ≤ n
      → Roomy s.buffer_size (process_messages calls n s a)
  unfolding process_messages
  process_messages-Roomy zero s a big h = (refl, omega arith)
  process_messages-Roomy (suc n) s a big h =
      let known = round-RoundRoomy s a big in
      elim (round-Stepped calls s a) [
        | inl (p, e) ↦ rw (process_messages, e) (subst (RoundRoomy s.buffer_size) e known)
        | inr (t, rest, less, e) ↦
            let same = subst (RoundRoomy s.buffer_size) e known in
            rw (process_messages, e)
              (subst (λ k. Roomy k (process_messages calls n t rest)) same
                (process_messages-Roomy n t rest (omega arith) (omega arith)))
      ]

  pub process_buffer-Roomy :
      (s : Server S) (a : List ℕ)
      → header_size ≤ s.buffer_size
      → Roomy s.buffer_size (process_buffer calls s a)
  unfolding process_buffer
  process_buffer-Roomy s a big = process_messages-Roomy (length a) s a big (omega arith)
