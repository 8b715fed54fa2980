-- ===== src/Node/PeerSync.antt =====
-- The rounds of raft_peer_sync_thread_fn of src/node/state/node_state.c, which take the members of
-- the cluster view over as peers of the raft node. `connects` is what rpc_client_connect gives for
-- the address of a member, and `last_index` is the index of the node's last log entry. The view does
-- not change within a round, and has at most MAX_CLUSTER_NODES members.
pub mod Lists
pub mod Peered
pub mod Follows
use e_roole.Prelude.{
  ℕ, ◌&&◌, ◌||◌, not, Bool, true, false, List, [], ◌∷◌, Option, none, some, ◌==◌, if◌then◌else◌,
}
use e_roole.Cluster.View.{Member, View, is_alive, get_member}
use e_roole.Raft.Peers.{
  PeerTable, AddPeer, added, existed, invalid, full, unreachable, add_peer, remove_peer,
}

-- The loops that look for an id in a list.
unfoldable pub contains : ℕ → List ℕ → Bool
contains id [] = false
contains id (x ∷ xs) = (x == id) || contains id xs

-- The members that are alive, but for the node itself.
unfoldable pub current_peers : ℕ → List Member → List ℕ
current_peers my_id [] = []
current_peers my_id (m ∷ ms) =
    let rest = current_peers my_id ms in
    if not (m.node_id == my_id) && is_alive m.status then m.node_id ∷ rest else rest

-- The table that raft_add_peer leaves.
abbrev pub table_after : PeerTable → AddPeer → PeerTable
table_after t (added t') = t'
table_after t (existed t') = t'
table_after t full = t
table_after t invalid = t
table_after t (unreachable t') = t'

-- The loop over the current peers.
unfoldable pub add_new :
    (Member → Option ℕ) → ℕ → List Member → List ℕ → List ℕ → PeerTable → PeerTable
add_new connects last_index members known [] t = t
add_new connects last_index members known (id ∷ ids) t =
    let t' =
      (if contains id known then t else (elim (get_member members id) [
        | none ↦ t
        | some m ↦ table_after t (add_peer t id m.data_port (connects m) last_index)
      ])) in
    add_new connects last_index members known ids t'

-- The loop over the peers that were known.
unfoldable pub remove_gone : List ℕ → List ℕ → PeerTable → PeerTable
remove_gone current [] t = t
remove_gone current (id ∷ ids) t =
    remove_gone current ids (if contains id current then t else remove_peer t id)

-- A round: the table and the peers known after it.
unfoldable pub sync_peers :
    (Member → Option ℕ) → ℕ → ℕ → View → List ℕ → PeerTable → List ℕ × PeerTable
sync_peers connects last_index my_id view known t =
    let current = current_peers my_id view.members in
    (current, remove_gone current known (add_new connects last_index view.members known current t))
