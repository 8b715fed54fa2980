-- ===== src/Node/PeerSync/Follows.antt =====
-- What a round of raft_peer_sync_thread_fn of src/node/state/node_state.c makes of the raft peers.
use e_roole.Prelude.{
  ℕ, ◌+◌, ◌≤◌, ◌<◌, ◌≡◌, refl, ap, none, Option-cases, subst, ◌∙◌, ◌&&◌, ◌||◌, not, Bool, true,
  false, List, [], ◌∷◌, Option, some, length, ◌==◌, ==_iff, if◌then◌else◌, arith, Bool-cases, inl,
  inr,
}
use e_roole.Cluster.View.{Member, View, get_member}
use e_roole.Raft.Peers.{PeerTable, max_peers, add_peer, remove_peer}
use e_roole.Raft.Peers.View.{peers_of}
use e_roole.Node.PeerSync.{contains, current_peers, table_after, add_new, remove_gone, sync_peers}
use e_roole.Node.PeerSync.Peered.{
  IsPeered, in_table, can_add, Added, Added-same, add_peer-Added, remove_peer-Removed,
}

remove_gone_lem :
    (current ids : List ℕ) (t : PeerTable)
    → IsPeered t
    → let t' = remove_gone current ids t in
      IsPeered t'
      × ((k : ℕ)
          → in_table k t' ≡ (in_table k t && not (contains k ids && not (contains k current))))
unfolding remove_gone contains
remove_gone_lem current [] t h = (h, λ k. ground arith)
remove_gone_lem current (id ∷ ids) t h = elim (Bool-cases (contains id current)) [
  | inl stays ↦
      let (valid, ih) = remove_gone_lem current ids t h in
      rw (stays, remove_gone)
        (
          valid,
          λ k. ih k ∙ elim (Bool-cases (id == k)) [
            | inl hit ↦
                let one = subst (λ z. contains z current ≡ true) ((==_iff id k).0 hit) stays in
                rw (hit, one) (ground arith)
            | inr miss ↦ rw miss (ground arith)
          ],
        )
  | inr gone ↦
      let (valid, step) = remove_peer-Removed t id h in
      let (valid', ih) = remove_gone_lem current ids (remove_peer t id) valid in
      rw (gone, remove_gone)
        (
          valid',
          λ k.
              ih k
              ∙ (rw (step k) (elim (Bool-cases (id == k)) [
                | inl hit ↦
                    let one = subst (λ z. contains z current ≡ false) ((==_iff id k).0 hit) gone in
                    rw (hit, one) (ground arith)
                | inr miss ↦ rw miss (ground arith)
              ])),
        )
]

-- The member with an id can be added as a peer.
unfoldable pub reaches : (Member → Option ℕ) → List Member → ℕ → Bool
reaches connects members id = elim (get_member members id) [
  | none ↦ false
  | some m ↦ can_add m.data_port (connects m)
]

module _ (connects : Member → Option ℕ) (last_index : ℕ) (members : List Member)
    (known : List ℕ) where
  abbrev after_new : ℕ → PeerTable → PeerTable
  after_new id t = elim (get_member members id) [
    | none ↦ t
    | some m ↦ table_after t (add_peer t id m.data_port (connects m) last_index)
  ]

  after_new-Added :
      (id : ℕ) (t : PeerTable)
      → IsPeered t
      → length (peers_of t) < max_peers
      → Added t id (reaches connects members id) (after_new id t)
  unfolding reaches
  after_new-Added id t h room = elim (Option-cases (get_member members id)) [
    | inl n ↦ rw (n, reaches, after_new) (Added-same t id h)
    | inr (m, g) ↦
        rw (g, reaches, after_new) (add_peer-Added t id m.data_port (connects m) last_index h room)
  ]

  add_new_lem :
      (ids : List ℕ) (t : PeerTable)
      → IsPeered t
      → length (peers_of t) + length ids ≤ max_peers
      → let t' = add_new connects last_index members known ids t in
        IsPeered t'
        × ((k : ℕ)
            → in_table k t' ≡ (
                in_table k t
                || (contains k ids && (not (contains k known) && reaches connects members k))))
  unfolding add_new contains
  add_new_lem [] t h room = (h, λ k. ground arith)
  add_new_lem (id ∷ ids) t h room = elim (Bool-cases (contains id known)) [
    | inl old ↦
        let (valid, ih) = add_new_lem ids t h (omega arith) in
        rw (old, add_new)
          (
            valid,
            λ k. ih k ∙ elim (Bool-cases (id == k)) [
              | inl hit ↦
                  let one = subst (λ z. contains z known ≡ true) ((==_iff id k).0 hit) old in
                  rw (hit, one) (ground arith)
              | inr miss ↦ rw miss (ground arith)
            ],
          )
    | inr new ↦
        let (valid, longer, step) = after_new-Added id t h (omega arith) in
        let (valid', ih) = add_new_lem ids (after_new id t) valid (omega arith) in
        rw (new, add_new)
          (
            valid',
            λ k.
                ih k
                ∙ (rw (step k) (elim (Bool-cases (id == k)) [
                  | inl hit ↦
                      let same = (==_iff id k).0 hit in
                      let one = subst (λ z. contains z known ≡ false) same new in
                      let good = ap (reaches connects members) same in
                      rw (hit, one, good) (ground arith)
                  | inr miss ↦ rw miss (ground arith)
                ])),
          )
  ]

-- A round from a table of different peers that has room for those that are alive: a member that is
-- alive is a peer afterwards if it was one, or if it was not known, its port is not 0 and the connection
-- to it is made; any other is a peer only if it was one and was not known. So a known member that is
-- alive and not a peer, such as one that could not be connected to when it was new, does not become a
-- peer.
pub sync_peers-in_table :
    (connects : Member → Option ℕ) (last_index my_id : ℕ) (view : View) (known : List ℕ)
    (t : PeerTable)
    → IsPeered t
    → length (peers_of t) + length (current_peers my_id view.members) ≤ max_peers
    → let r = sync_peers connects last_index my_id view known t in
      (r.0 ≡ current_peers my_id view.members)
      × IsPeered r.1
      × ((k : ℕ)
          → in_table k r.1 ≡ (
              if contains k r.0
              then in_table k t || (not (contains k known) && reaches connects view.members k)
              else in_table k t && not (contains k known)))
unfolding sync_peers
sync_peers-in_table connects last_index my_id view known t h room =
    let current = current_peers my_id view.members in
    let (valid, added_all) = add_new_lem connects last_index view.members known current t h room in
    let (valid', removed_all) =
      remove_gone_lem current known (add_new connects last_index view.members known current t)
        valid in
    (
      refl,
      valid',
      λ k.
          removed_all k
          ∙ (rw (added_all k) (
              truth (in_table k t) (contains k current) (contains k known)
                (reaches connects view.members k))),
    )
  where
    truth :
        (here alive known good : Bool)
        → ((here || (alive && (not known && good))) && not (known && not alive))
          ≡ (if alive then here || (not known && good) else here && not known)
    truth here alive known good = ground arith
