-- ===== src/Raft/Peers/Update.antt =====
-- raft_add_peer and raft_remove_peer on the lists that the peer table stands for.
use e_roole.Prelude.{
  erase, ℕ, zero, suc, ◌+◌, ◌%◌, ◌^◌, ◌≤◌, ◌<◌, ◌≡◌, ◌≢◌, ◌⊎◌, inl, inr, refl, ap, ◌∙◌, false, List,
  [], ◌∷◌, ◌++◌, Option, none, some, length, length-set, take, set, All, get_elem?, leb, ◌==◌,
  ==_iff, arith, Bool-cases,
}
use e_roole.Raft.Peers.{
  PeerTable, max_peers, find_peer, remove_peer, added, existed, full, unreachable, add_peer,
}
use e_roole.Raft.Peers.View.{IsTable, peers_of, clients_of, next_of, match_of, remove_at-erase}

-- A search finds no cell in use that holds the id, or one that does.
find_peer-cases :
    (id n i : ℕ) (xs : List ℕ)
    → ((find_peer id n i xs ≡ none) × All (λ x. x ≢ id) (take n xs))
      ⊎ ((j : ℕ) × (find_peer id n i xs ≡ some (i + j))
          × (j < n)
          × (get_elem? (take n xs) j ≡ some id))
unfolding find_peer
find_peer-cases id zero i xs = inl (refl, tt)
find_peer-cases id (suc n) i [] = inl (refl, tt)
find_peer-cases id (suc n) i (x ∷ xs) = elim (Bool-cases (x == id)) [
  | inl hit ↦
      let e = (==_iff x id).0 hit in
      let zero_more : i ≡ i + 0 = omega arith in
      inr (0, rw hit (ap some zero_more), omega arith, ap some e)
  | inr miss ↦ elim (find_peer-cases id n (i + 1) xs) [
    | inl (e, others) ↦ inl (rw (miss, e) refl, ((λ e'. let h = (==_iff x id).1 e' in cc), others))
    | inr (j, e, l, g) ↦
        let shift : i + 1 + j ≡ i + suc j = omega arith in
        inr (suc j, rw (miss, e) (ap some shift), omega arith, g)
  ]
]

-- Removing a peer: where the id is not in the table nothing changes, else the peer found goes out of
-- each of the four lists, and the others keep their order.
pub remove_peer-erase :
    (t : PeerTable) (id : ℕ)
    → IsTable t
    → (All (λ x. x ≢ id) (peers_of t) × (remove_peer t id ≡ t))
      ⊎ ((i : ℕ) × (get_elem? (peers_of t) i ≡ some id)
          × IsTable (remove_peer t id)
          × (peers_of (remove_peer t id) ≡ erase i (peers_of t))
          × (clients_of (remove_peer t id) ≡ erase i (clients_of t))
          × (next_of (remove_peer t id) ≡ erase i (next_of t))
          × (match_of (remove_peer t id) ≡ erase i (match_of t)))
unfolding remove_peer
remove_peer-erase t id h = elim (find_peer-cases id t.peer_count 0 t.peers) [
  | inl (e, others) ↦ inl (others, rw (e, remove_peer) refl)
  | inr (j, e, l, g) ↦
      let at : find_peer id t.peer_count 0 t.peers ≡ some j = e ∙ ap some (omega arith) in
      let (table, a, b, c, d) = remove_at-erase t j h l in
      inr (rw (at, remove_peer) (j, g, table, a, b, c, d))
]

module _ {ℓ} {A : Type ℓ} where
  take-set_end :
      (n : ℕ) (v : A) (xs : List A)
      → n < length xs
      → take (suc n) (set xs n v) ≡ take n xs ++ (v ∷ [])
  take-set_end n v [] h = absurd (omega arith)
  take-set_end zero v (x ∷ xs) h = refl
  take-set_end (suc n) v (x ∷ xs) h = ap (◌∷◌ x) (take-set_end n v xs (omega arith))

  take-set : (n : ℕ) (v : A) (xs : List A) → take n (set xs n v) ≡ take n xs
  take-set zero v xs = refl
  take-set (suc n) v [] = refl
  take-set (suc n) v (x ∷ xs) = ap (◌∷◌ x) (take-set n v xs)

-- Adding a peer under a port that is not 0: a peer that is in the table is left as it is; a table of 16 peers is full; where
-- no connection is made the lists stay as they were; else the peer stands at the end of the four
-- lists, with the index after the node's last log entry as its next index and 0 as its match index.
pub add_peer-append :
    (t : PeerTable) (id port : ℕ) (client : Option ℕ) (last_index : ℕ)
    → (port == 0) ≡ false
    → IsTable t
    → ((i : ℕ) × (get_elem? (peers_of t) i ≡ some id)
        × (add_peer t id port client last_index ≡ existed t))
      ⊎ (All (λ x. x ≢ id) (peers_of t)
          × (((t.peer_count ≡ max_peers) × (add_peer t id port client last_index ≡ full))
              ⊎ (((t' : PeerTable) × (client ≡ none)
                    × (add_peer t id port client last_index ≡ unreachable t')
                    × IsTable t'
                    × (peers_of t' ≡ peers_of t)
                    × (clients_of t' ≡ clients_of t))
                  ⊎ ((t' : PeerTable) × (client ≢ none)
                      × (add_peer t id port client last_index ≡ added t')
                      × IsTable t'
                      × (peers_of t' ≡ peers_of t ++ (id ∷ []))
                      × (clients_of t' ≡ clients_of t ++ (client ∷ []))
                      × (next_of t' ≡ next_of t ++ ((last_index + 1) % 2 ^ 64 ∷ []))
                      × (match_of t' ≡ match_of t ++ (0 ∷ []))))))
unfolding add_peer
add_peer-append t id port client last_index real (c, p, k, x, m) =
    elim (find_peer-cases id t.peer_count 0 t.peers) [
      | inr (j, e, l, g) ↦ inl (j, g, rw (real, add_peer, e) refl)
      | inl (e, others) ↦ inr (
        others,
        elim (Bool-cases (leb max_peers t.peer_count)) [
          | inl over ↦ inl (ground arith, rw (real, add_peer, e, over) refl)
          | inr room ↦ inr (connected client e room)
        ],
      )
    ]
  where
    connected :
        (client : Option ℕ)
        → find_peer id t.peer_count 0 t.peers ≡ none
        → leb max_peers t.peer_count ≡ false
        → ((t' : PeerTable) × (client ≡ none)
            × (add_peer t id port client last_index ≡ unreachable t')
            × IsTable t'
            × (peers_of t' ≡ peers_of t)
            × (clients_of t' ≡ clients_of t))
          ⊎ ((t' : PeerTable) × (client ≢ none)
              × (add_peer t id port client last_index ≡ added t')
              × IsTable t'
              × (peers_of t' ≡ peers_of t ++ (id ∷ []))
              × (clients_of t' ≡ clients_of t ++ (client ∷ []))
              × (next_of t' ≡ next_of t ++ ((last_index + 1) % 2 ^ 64 ∷ []))
              × (match_of t' ≡ match_of t ++ (0 ∷ [])))
    connected none e room =
        let n = t.peer_count in
        inl (
          record t { peers = set t.peers n id; clients = set t.clients n none },
          refl,
          rw (real, add_peer, e, room) refl,
          (c, length-set t.peers n id ∙ p, length-set t.clients n none ∙ k, x, m),
          take-set n id t.peers,
          take-set n none t.clients,
        )
    connected (some a) e room =
        let n = t.peer_count in
        let next = (last_index + 1) % 2 ^ 64 in
        let free : suc n ≤ max_peers = ground arith in
        let one : n + 1 ≡ suc n = omega arith in
        inr (
          record {
            peers = set t.peers n id;
            clients = set t.clients n (some a);
            next_index = set t.next_index n next;
            match_index = set t.match_index n 0;
            peer_count = n + 1;
          },
          (λ null. cc),
          rw (real, add_peer, e, room) refl,
          (
            omega arith,
            length-set t.peers n id ∙ p,
            length-set t.clients n (some a) ∙ k,
            length-set t.next_index n next ∙ x,
            length-set t.match_index n 0 ∙ m,
          ),
          rw one (take-set_end n id t.peers (omega arith)),
          rw one (take-set_end n (some a) t.clients (omega arith)),
          rw one (take-set_end n next t.next_index (omega arith)),
          rw one (take-set_end n 0 t.match_index (omega arith)),
        )
