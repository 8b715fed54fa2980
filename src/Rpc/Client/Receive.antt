-- ===== src/Rpc/Client/Receive.antt =====
-- Reading from the socket as src/rpc/client/rpc_client.c does, however the network cuts the bytes.
use e_roole.Prelude.{
  ℕ, ◌-◌, ◌≤◌, ◌≡◌, refl, sym, ap, ◌∙◌, List, [], ◌∷◌, ◌++◌, some, length, take, drop, inl, inr,
  take-append, drop-append, take-append_left, drop-append_left, length-drop, take-append-drop,
  subst, ltb, arith, Bool-cases,
}
use e_roole.Rpc.Client.{Arrival, got, broken, left_over, recv_exact}

-- Pieces of bytes on the socket, none of them empty.
abbrev pub Pieces : List Arrival → List ℕ → Type 0
Pieces [] bytes = [] ≡ bytes
Pieces (broken ∷ arrivals) bytes = ⊥
Pieces (got [] ∷ arrivals) bytes = ⊥
Pieces (got (x ∷ xs) ∷ arrivals) bytes =
    (rest : List ℕ) × (x ∷ (xs ++ rest) ≡ bytes) × Pieces arrivals rest

left_over-Pieces :
    (xs : List ℕ) (arrivals : List Arrival) (rest : List ℕ)
    → Pieces arrivals rest
    → Pieces (left_over xs arrivals) (xs ++ rest)
left_over-Pieces [] arrivals rest h = h
left_over-Pieces (x ∷ xs) arrivals rest h = (rest, refl, h)

-- Two ways to cut the same bytes in two.
cut_within :
    (xs ys bytes rest : List ℕ)
    → xs ++ ys ≡ bytes ++ rest
    → length bytes ≤ length xs
    → (take (length bytes) xs ≡ bytes) × (drop (length bytes) xs ++ ys ≡ rest)
cut_within xs ys bytes rest e h =
    let n = length bytes in
    (
      sym (take-append_left n xs ys h) ∙ (ap (take n) e ∙ take-append bytes rest),
      sym (drop-append_left n xs ys h) ∙ (ap (drop n) e ∙ drop-append bytes rest),
    )

-- Of pieces that make up `bytes` and then `rest`, the bytes are read and the rest is left.
pub recv_exact-Pieces :
    (bytes rest : List ℕ) (arrivals : List Arrival)
    → Pieces arrivals (bytes ++ rest)
    → (left : List Arrival) × (recv_exact (length bytes) arrivals ≡ (some bytes, left))
      × Pieces left rest
unfolding recv_exact
recv_exact-Pieces [] rest arrivals h = (arrivals, refl, h)
recv_exact-Pieces (b ∷ bytes) rest [] h = absurd cc
recv_exact-Pieces (b ∷ bytes) rest (broken ∷ arrivals) h = absurd h
recv_exact-Pieces (b ∷ bytes) rest (got [] ∷ arrivals) h = absurd h
recv_exact-Pieces (b ∷ bytes) rest (got (x ∷ xs) ∷ arrivals) (after, same, h) =
    let first : x ≡ b = cc in
    let others : xs ++ after ≡ bytes ++ rest = cc in
    elim (Bool-cases (ltb (length bytes) (length xs))) [
      | inl within ↦
          let (front, back) = cut_within xs after bytes rest others (ground arith) in
          (
            left_over (drop (length bytes) xs) arrivals,
            rw (within, front, first) refl,
            subst (Pieces (left_over (drop (length bytes) xs) arrivals)) back
                (left_over-Pieces (drop (length bytes) xs) arrivals after h),
          )
      | inr beyond ↦
          let (front, back) = cut_within bytes rest xs after (sym others) (ground arith) in
          let missing = drop (length xs) bytes in
          let (left, e, p) =
            recv_exact-Pieces missing rest arrivals (subst (Pieces arrivals) (sym back) h) in
          let size : length missing ≡ length bytes - length xs = length-drop (length xs) bytes in
          let whole : xs ++ missing ≡ bytes =
            ap (λ ys. ys ++ missing) (sym front) ∙ take-append-drop (length xs) bytes in
          (left, rw (beyond, ← size, e, first, whole) refl, p)
    ]
