-- ===== src/Raft/Peers.antt =====
-- The peer table of a raft node: peer_clients of struct raft_state with the parallel arrays of
-- raft_leader_state_t, and raft_add_peer and raft_remove_peer of src/raft/core/raft_state.c.
-- A client is the number of its connection, `none` for NULL.

pub mod View
pub mod Update
use e_roole.Prelude.{
  ℕ, zero, suc, ◌+◌, ◌-◌, ◌%◌, ◌^◌, List, [], ◌∷◌, ◌++◌, Option, none, some, take, drop, set, ltb,
  leb, ◌==◌, if◌then◌else◌,
}

-- RAFT_MAX_PEERS, the length of each array.
abbrev pub max_peers : ℕ
max_peers = 16

pub record PeerTable : Type 0 where
  pub peers : List ℕ
  pub clients : List (Option ℕ)
  pub next_index : List ℕ
  pub match_index : List ℕ
  pub peer_count : ℕ

-- The first index below `n` that holds `id`, counted from `i`.
unfoldable pub find_peer : ℕ → ℕ → ℕ → List ℕ → Option ℕ
find_peer id zero i xs = none
find_peer id (suc n) i [] = none
find_peer id (suc n) i (x ∷ xs) = if x == id then some i else find_peer id n (i + 1) xs

-- `memmove(&xs[i], &xs[i + 1], (n - i - 1) * sizeof(...))`: the cells from `i + 1` to `n` move
-- down by one, and the cell `n - 1` keeps its value.
unfoldable pub shift_down {ℓ} : {A : Type ℓ} → ℕ → ℕ → List A → List A
shift_down i n xs = take i xs ++ (take (n - i - 1) (drop (i + 1) xs) ++ drop (n - 1) xs)

pub data AddPeer : Type 0 where
  added existed : PeerTable → AddPeer
  invalid full : AddPeer
  unreachable : PeerTable → AddPeer

-- `raft_add_peer`; `last_index` is the index of the node's last log entry, and `client` what
-- rpc_client_connect returns.
unfoldable pub add_peer : PeerTable → ℕ → ℕ → Option ℕ → ℕ → AddPeer
unfolding find_peer
add_peer t id port client last_index =
    if port == 0 then invalid else (elim (find_peer id t.peer_count 0 t.peers) [
      | some i ↦ existed t
      | none ↦ if leb max_peers t.peer_count then full else elim client [
        | none ↦ unreachable (record t {
          peers = set t.peers t.peer_count id;
          clients = set t.clients t.peer_count none;
        })
        | some c ↦ added (record {
          peers = set t.peers t.peer_count id;
          clients = set t.clients t.peer_count (some c);
          next_index = set t.next_index t.peer_count ((last_index + 1) % 2 ^ 64);
          match_index = set t.match_index t.peer_count 0;
          peer_count = t.peer_count + 1;
        })
      ]
    ])

-- `raft_remove_peer` once the peer is found at index `i`; its client is closed first.
unfoldable pub remove_at : PeerTable → ℕ → PeerTable
unfolding shift_down
remove_at t i =
    let n = t.peer_count in
    let closed = set t.clients i none in
    if ltb i (n - 1)
    then record {
      peers = shift_down i n t.peers;
      clients = shift_down i n closed;
      next_index = shift_down i n t.next_index;
      match_index = shift_down i n t.match_index;
      peer_count = n - 1;
    }
    else record t { clients = closed; peer_count = n - 1 }

unfoldable pub remove_peer : PeerTable → ℕ → PeerTable
unfolding find_peer remove_at
remove_peer t id = elim (find_peer id t.peer_count 0 t.peers) [ none ↦ t | some i ↦ remove_at t i ]
