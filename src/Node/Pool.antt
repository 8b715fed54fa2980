-- ===== src/Node/Pool.antt =====
-- src/node/peers/peer_pool.c. The list `peers` is the first `count` cells of the array, the only ones that
-- the code reads. A pointer argument is never NULL, and `now` is what time_now_ms returns. The load
-- score is the bits of the float, which are only stored here.
pub mod RoundRobin
use e_roole.Prelude.{
  erase, ℕ, zero, suc, ◌+◌, ◌%◌, ◌^◌, ◌&&◌, not, Bool, true, false, List, [], ◌∷◌, ◌++◌, Option,
  none, some, length, set, take, get_elem?, ltb, leb, ◌==◌, if◌then◌else◌,
}
use e_roole.Slots.{find_slot}
use e_roole.Cluster.View.{alive, worker, is_alive}
use e_roole.Gossip.Swim.{ip_copy}

pub record Capabilities : Type 0 where
  pub has_ingress : ℕ
  pub can_execute : ℕ
  pub can_route : ℕ

pub record Peer : Type 0 where
  pub node_id : ℕ
  pub node_type : ℕ
  pub ip : List ℕ
  pub gossip_port : ℕ
  pub data_port : ℕ
  pub status : ℕ
  pub active_executions : ℕ
  pub load_score : ℕ
  pub last_seen_ms : ℕ
  pub data_channel : Option ℕ
  pub capabilities : Capabilities

pub record Pool : Type 0 where
  pub peers : List Peer
  pub capacity : ℕ

pub data PoolCode : Type 0 where
  pool_ok pool_invalid pool_notfound pool_full : PoolCode

-- `peer_pool_init`, where the allocation and the lock succeed.
unfoldable pub init : ℕ → Option Pool
init zero = none
init (suc n) = some (record { peers = []; capacity = suc n })

abbrev pub is_peer_of : ℕ → Peer → Bool
is_peer_of id p = p.node_id == id

-- `peer_pool_add`
unfoldable pub add : Pool → ℕ → List ℕ → ℕ → ℕ → ℕ → PoolCode × Pool
add pool id ip gossip_port data_port now = elim (find_slot (is_peer_of id) pool.peers) [
  | some (i, p) ↦ (pool_ok, pool)
  | none ↦ if leb pool.capacity (length pool.peers) then (pool_full, pool) else (
    pool_ok,
    record pool {
      peers =
          pool.peers
          ++ (record {
            node_id = id;
            node_type = worker;
            ip = ip_copy ip;
            gossip_port = gossip_port;
            data_port = data_port;
            status = alive;
            active_executions = 0;
            load_score = 0;
            last_seen_ms = now;
            data_channel = none;
            capabilities = record { has_ingress = 0; can_execute = 1; can_route = 1 };
          }
              ∷ []);
    },
  )
]

-- `peer_pool_remove`: the channel that it closes, if there was one, and the pool.
unfoldable pub remove : Pool → ℕ → PoolCode × Option ℕ × Pool
remove pool id = elim (find_slot (is_peer_of id) pool.peers) [
  | none ↦ (pool_notfound, none, pool)
  | some (i, p) ↦ (pool_ok, p.data_channel, record pool { peers = erase i pool.peers })
]

-- The operations that change one peer.
unfoldable pub change_peer : Pool → ℕ → (Peer → Peer) → PoolCode × Pool
change_peer pool id f = elim (find_slot (is_peer_of id) pool.peers) [
  | none ↦ (pool_notfound, pool)
  | some (i, p) ↦ (pool_ok, record pool { peers = set pool.peers i (f p) })
]

-- `peer_pool_update_status`
unfoldable pub update_status : Pool → ℕ → ℕ → ℕ → PoolCode × Pool
unfolding change_peer
update_status pool id status now =
    change_peer pool id λ p. record p { status = status; last_seen_ms = now }

-- `peer_pool_update_load`
unfoldable pub update_load : Pool → ℕ → ℕ → ℕ → ℕ → PoolCode × Pool
unfolding change_peer
update_load pool id active_execs load_score now =
    change_peer pool id λ p. record p {
      active_executions = active_execs;
      load_score = load_score;
      last_seen_ms = now;
    }

-- `peer_pool_update_capabilities`
unfoldable pub update_capabilities : Pool → ℕ → Capabilities → PoolCode × Pool
unfolding change_peer
update_capabilities pool id caps = change_peer pool id λ p. record p { capabilities = caps }

-- `peer_pool_get`
unfoldable pub get_peer : List Peer → ℕ → Option Peer
get_peer [] id = none
get_peer (p ∷ ps) id = if is_peer_of id p then some p else get_peer ps id

-- The loops of `peer_pool_list_alive` and `peer_pool_list_by_capability`, with room for `n` ids.
unfoldable pub list_peers : (Peer → Bool) → List Peer → ℕ → List ℕ
list_peers keep ps zero = []
list_peers keep [] (suc n) = []
list_peers keep (p ∷ ps) (suc n) =
    let rest = list_peers keep ps (suc n) in
    let fewer = list_peers keep ps n in if keep p then p.node_id ∷ fewer else rest

unfoldable pub list_alive : Pool → ℕ → List ℕ
unfolding list_peers
list_alive pool n = list_peers (λ p. is_alive p.status) pool.peers n

unfoldable pub list_by_capability : Pool → ℕ → ℕ → List ℕ
unfolding list_peers
list_by_capability pool can_execute n =
    list_peers (λ p. is_alive p.status && (p.capabilities.can_execute == can_execute)) pool.peers n

abbrev pub is_executor : Peer → Bool
is_executor p = is_alive p.status && not (p.capabilities.can_execute == 0)

-- The loop of `peer_pool_select_round_robin`, with the attempts that are left and the global index:
-- the peer chosen, or 0, and the index after it.
unfoldable pub try_peers : List Peer → ℕ → ℕ → ℕ × ℕ
try_peers ps zero index = (0, index)
try_peers ps (suc n) index =
    let next = (index + 1) % 2 ^ 64 in
    let rest = try_peers ps n next in
    elim (get_elem? ps (index % length ps)) [
      | none ↦ (0, index)
      | some p ↦ if is_executor p then (p.node_id, next) else rest
    ]

-- `peer_pool_select_round_robin`
unfoldable pub select_round_robin : Pool → ℕ → ℕ × ℕ
unfolding try_peers
select_round_robin pool index = try_peers pool.peers (length pool.peers) index
