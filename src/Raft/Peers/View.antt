-- ===== src/Raft/Peers/View.antt =====
-- The peer table as lists: the first `peer_count` cells of each of the four arrays.
use e_roole.Prelude.{
  erase, ℕ, zero, suc, ◌+◌, ◌-◌, ◌≤◌, ◌<◌, ◌≡◌, inl, inr, refl, ap, ◌∙◌, List, [], ◌∷◌, ◌++◌,
  append_assoc, Option, none, length, length-append, length-take, length-drop, length-set, take,
  drop, set, take-append, ltb, if◌then◌else◌, arith, Bool-cases,
}
use e_roole.Raft.Peers.{PeerTable, max_peers, shift_down, remove_at}

module _ {ℓ} {A : Type ℓ} where
  erase-take :
      (i m : ℕ) (xs : List A)
      → i + m < length xs
      → take i xs ++ take m (drop (suc i) xs) ≡ erase i (take (suc (i + m)) xs)
  erase-take i m [] h = absurd (omega arith)
  erase-take zero m (x ∷ xs) h = let e : 0 + m ≡ m = omega arith in rw e refl
  erase-take (suc i) m (x ∷ xs) h =
      let e : suc i + m ≡ suc (i + m) = omega arith in rw (e, erase-take i m xs (omega arith)) refl

  take_front :
      (k : ℕ) (xs ys zs : List A) → k ≡ length (xs ++ ys) → take k (xs ++ (ys ++ zs)) ≡ xs ++ ys
  take_front k xs ys zs e =
      ap (λ j. take j (xs ++ (ys ++ zs))) e
      ∙ rw (← append_assoc xs ys zs) (take-append (xs ++ ys) zs)

  -- What memmove leaves in the cells that are still in use.
  take-shift_down :
      (i n : ℕ) (xs : List A)
      → i < n
      → n ≤ length xs
      → take (n - 1) (shift_down i n xs) ≡ erase i (take n xs)
  unfolding shift_down
  take-shift_down i n xs l h =
      let m = n - i - 1 in
      let front = take i xs in
      let moved = take m (drop (i + 1) xs) in
      let size : n - 1 ≡ length (front ++ moved) = omega (
        arith,
        length-append front moved,
        length-take i xs,
        length-take m (drop (i + 1) xs),
        length-drop (i + 1) xs,
      ) in
      let one : i + 1 ≡ suc i = omega arith in
      let whole : suc (i + m) ≡ n = omega arith in
      let at : take i xs ++ take m (drop (i + 1) xs) ≡ erase i (take n xs) =
        rw one (erase-take i m xs (omega arith)) ∙ ap (λ k. erase i (take k xs)) whole in
      take_front (n - 1) front moved (drop (n - 1) xs) size ∙ at

  -- The last cell in use is only forgotten.
  take-last : (i : ℕ) (xs : List A) → i < length xs → take i xs ≡ erase i (take (suc i) xs)
  take-last i [] h = absurd (omega arith)
  take-last zero (x ∷ xs) h = refl
  take-last (suc i) (x ∷ xs) h = ap (◌∷◌ x) (take-last i xs (omega arith))

  erase-set : (i n : ℕ) (v : A) (xs : List A) → erase i (take n (set xs i v)) ≡ erase i (take n xs)
  erase-set i zero v xs = refl
  erase-set i (suc n) v [] = refl
  erase-set zero (suc n) v (x ∷ xs) = refl
  erase-set (suc i) (suc n) v (x ∷ xs) = ap (◌∷◌ x) (erase-set i n v xs)

  length-shift_down :
      (i n : ℕ) (xs : List A) → i < n → n ≤ length xs → length (shift_down i n xs) ≡ length xs
  unfolding shift_down
  length-shift_down i n xs l h =
      let front = take i xs in
      let moved = take (n - i - 1) (drop (i + 1) xs) in
      let kept = drop (n - 1) xs in
      omega (
        arith,
        length-append front (moved ++ kept),
        length-append moved kept,
        length-take i xs,
        length-take (n - i - 1) (drop (i + 1) xs),
        length-drop (i + 1) xs,
        length-drop (n - 1) xs,
      )

  -- Both branches of the removal on one of the arrays.
  removed :
      (i n : ℕ) (xs : List A)
      → i < n
      → n ≤ length xs
      → take (n - 1) (if ltb i (n - 1) then shift_down i n xs else xs) ≡ erase i (take n xs)
  removed i n xs l h = elim (Bool-cases (ltb i (n - 1))) [
    | inl inner ↦ rw inner (take-shift_down i n xs l h)
    | inr last ↦
        let e : n - 1 ≡ i = ground arith in
        let e' : suc i ≡ n = omega (arith, e) in
        rw last (
          ap (λ k. take k xs) e ∙ (take-last i xs (omega arith) ∙ ap (λ k. erase i (take k xs)) e'))
  ]

-- Each array has RAFT_MAX_PEERS cells, and no more are in use.
abbrev pub IsTable : PeerTable → Type 0
IsTable t =
    (t.peer_count ≤ max_peers)
    × (length t.peers ≡ max_peers)
    × (length t.clients ≡ max_peers)
    × (length t.next_index ≡ max_peers)
    × (length t.match_index ≡ max_peers)

abbrev pub peers_of : PeerTable → List ℕ
peers_of t = take t.peer_count t.peers

abbrev pub clients_of : PeerTable → List (Option ℕ)
clients_of t = take t.peer_count t.clients

abbrev pub next_of : PeerTable → List ℕ
next_of t = take t.peer_count t.next_index

abbrev pub match_of : PeerTable → List ℕ
match_of t = take t.peer_count t.match_index

-- The removal of the peer at an index takes that peer, and just that one, out of each of the four
-- lists, and keeps the others in their order.
pub remove_at-erase :
    (t : PeerTable) (i : ℕ)
    → IsTable t
    → i < t.peer_count
    → let t' = remove_at t i in
      IsTable t'
      × (peers_of t' ≡ erase i (peers_of t))
      × (clients_of t' ≡ erase i (clients_of t))
      × (next_of t' ≡ erase i (next_of t))
      × (match_of t' ≡ erase i (match_of t))
unfolding remove_at
remove_at-erase t i (c, p, k, x, m) l =
    let n = t.peer_count in
    let closed = set t.clients i none in
    let ck = length-set t.clients i none in
    let rp = removed i n t.peers l (omega arith) in
    let rk = removed i n closed l (omega arith) ∙ erase-set i n none t.clients in
    let rx = removed i n t.next_index l (omega arith) in
    let rm = removed i n t.match_index l (omega arith) in
    let lp = length-shift_down i n t.peers l (omega arith) in
    let lk = length-shift_down i n closed l (omega arith) in
    let lx = length-shift_down i n t.next_index l (omega arith) in
    let lm = length-shift_down i n t.match_index l (omega arith) in
    elim (Bool-cases (ltb i (n - 1))) [
      | inl inner ↦
          rw (inner, remove_at)
            (
              (omega arith, lp ∙ p, lk ∙ (ck ∙ k), lx ∙ x, lm ∙ m),
              (rw inner at rp),
              (rw inner at rk),
              (rw inner at rx),
              (rw inner at rm),
            )
      | inr last ↦
          rw (last, remove_at)
            (
              (omega arith, p, ck ∙ k, x, m),
              (rw last at rp),
              (rw last at rk),
              (rw last at rx),
              (rw last at rm),
            )
    ]
