-- ===== src/Node/PeerSync/Peered.antt =====
-- Tables of different raft peers, as the sync thread of src/node/state/node_state.c changes them.
use e_roole.Prelude.{
  ℕ, ◌+◌, ◌≤◌, ◌<◌, ◌≡◌, ◌≢◌, refl, sym, Option, none, All, ◌++◌, ap, subst, ◌∙◌, ◌&&◌, ◌||◌, not,
  Bool, true, false, [], ◌∷◌, some, length, length-append, length-take, ◌==◌, ==_iff, arith,
  Bool-cases, inl, inr,
}
use e_roole.Raft.Peers.{PeerTable, max_peers, add_peer, remove_peer}
use e_roole.Raft.Peers.View.{IsTable, peers_of}
use e_roole.Raft.Peers.Update.{add_peer-append, remove_peer-erase}
use e_roole.Node.PeerSync.{contains, table_after}
use e_roole.Node.PeerSync.Lists.{
  Distinct, contains-append, contains-get_elem?, contains-erase, Distinct-erase,
  Distinct-append_one, contains-All,
}

-- A table without duplicates.
pub record IsPeered (t : PeerTable) : Type 0 where
  pub table : IsTable t
  pub distinct : Distinct (peers_of t)

abbrev pub in_table : ℕ → PeerTable → Bool
in_table id t = contains id (peers_of t)

length-peers_of : (t : PeerTable) → IsTable t → length (peers_of t) ≡ t.peer_count
length-peers_of t h = omega (arith, length-take t.peer_count t.peers)

-- raft_add_peer can add a peer: its port is not 0, and the connection is made.
abbrev pub can_add : ℕ → Option ℕ → Bool
can_add port none = false
can_add port (some c) = not (port == 0)

abbrev pub Added : PeerTable → ℕ → Bool → PeerTable → Type 0
Added t id good t' =
    IsPeered t'
    × (length (peers_of t') ≤ length (peers_of t) + 1)
    × ((k : ℕ) → in_table k t' ≡ (in_table k t || (good && (id == k))))

pub Added-same : (t : PeerTable) (id : ℕ) → IsPeered t → Added t id false t
Added-same t id h = (h, omega arith, λ k. ground arith)

Added-there :
    (t : PeerTable) (id : ℕ) (good : Bool) → IsPeered t → in_table id t ≡ true → Added t id good t
Added-there t id good h there = (
  h,
  omega arith,
  λ k. elim (Bool-cases (id == k)) [
    | inl hit ↦
        let one = subst (λ z. in_table z t ≡ true) ((==_iff id k).0 hit) there in rw (hit, one) refl
    | inr miss ↦ rw miss (ground arith)
  ],
)

Added-append :
    (t t' : PeerTable) (id : ℕ)
    → IsPeered t
    → All (λ x. x ≢ id) (peers_of t)
    → IsTable t'
    → peers_of t' ≡ peers_of t ++ (id ∷ [])
    → Added t id true t'
unfolding contains
Added-append t t' id h others table peers =
    let absent = contains-All id (peers_of t) others in
    (
      record {
        table = table;
        distinct =
            subst Distinct (sym peers) (Distinct-append_one (peers_of t) id h.distinct absent);
      },
      omega (arith, ap length peers, length-append (peers_of t) (id ∷ [])),
      λ k. ap (contains k) peers ∙ (contains-append k (peers_of t) (id ∷ []) ∙ ground arith),
    )

-- Where the table has room, a peer that can be added is in it afterwards, and nothing else changes.
pub add_peer-Added :
    (t : PeerTable) (id port : ℕ) (client : Option ℕ) (last_index : ℕ)
    → IsPeered t
    → length (peers_of t) < max_peers
    → Added t id (can_add port client) (table_after t (add_peer t id port client last_index))
unfolding add_peer
add_peer-Added t id port client last_index h room = elim (Bool-cases (port == 0)) [
  | inl zero_port ↦
      let bad : can_add port client ≡ false = no_port client zero_port in
      rw (bad, zero_port, add_peer) (Added-same t id h)
  | inr real ↦ elim (add_peer-append t id port client last_index real h.table) [
    | inl (i, g, e) ↦
        rw (e, table_after)
          (Added-there t id (can_add port client) h (contains-get_elem? (peers_of t) i id g))
    | inr (others, inl (over, _)) ↦ absurd (omega (arith, over, length-peers_of t h.table))
    | inr (others, inr (inl (t', gone, e, table, peers, _))) ↦
        rw (e, table_after, gone)
          (
            record { table = table; distinct = subst Distinct (sym peers) h.distinct },
            omega (arith, ap length peers),
            λ k. ap (contains k) peers ∙ ground arith,
          )
    | inr (others, inr (inr (t', linked, e, table, peers, _, _, _))) ↦
        rw (e, table_after, is_added client real linked) (Added-append t t' id h others table peers)
  ]
]
  where
    no_port : (client : Option ℕ) → (port == 0) ≡ true → can_add port client ≡ false
    no_port none e = refl
    no_port (some c) e = rw e refl

    is_added :
        (client : Option ℕ) → (port == 0) ≡ false → client ≢ none → can_add port client ≡ true
    is_added none e linked = absurd (linked refl)
    is_added (some c) e linked = rw e refl

abbrev pub Removed : PeerTable → ℕ → PeerTable → Type 0
Removed t id t' = IsPeered t' × ((k : ℕ) → in_table k t' ≡ (in_table k t && not (id == k)))

pub remove_peer-Removed : (t : PeerTable) (id : ℕ) → IsPeered t → Removed t id (remove_peer t id)
remove_peer-Removed t id h = elim (remove_peer-erase t id h.table) [
  | inl (others, e) ↦
      let absent = contains-All id (peers_of t) others in
      rw e (
        h,
        λ k. elim (Bool-cases (id == k)) [
          | inl hit ↦
              let one = subst (λ z. contains z (peers_of t) ≡ false) ((==_iff id k).0 hit) absent in
              rw (hit, one) refl
          | inr miss ↦ rw miss (ground arith)
        ],
      )
  | inr (i, g, table, peers, _, _, _) ↦ (
    record {
      table = table;
      distinct = subst Distinct (sym peers) (Distinct-erase (peers_of t) i h.distinct);
    },
    λ k. ap (contains k) peers ∙ contains-erase k (peers_of t) i id h.distinct g,
  )
]
