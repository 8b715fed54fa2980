-- ===== src/Examples/Peers.antt =====
-- The peer table.
use e_roole.Prelude.{erase, ℕ, ◌≡◌, ◌≢◌, ◌⊎◌, refl, some, get_elem?, All, arith}
use e_roole.Raft.Peers.{remove_peer}
use e_roole.Raft.Peers.View.{IsTable, peers_of, clients_of, next_of, match_of}
use e_roole.Raft.Peers.Update.{remove_peer-erase}
use e_roole.Examples.Data.{two_peers}

two_peers-IsTable : IsTable two_peers
two_peers-IsTable = (omega arith, refl, refl, refl, refl)

remove_peer-erase_example :
    (All (λ x. x ≢ 2) (peers_of two_peers) × (remove_peer two_peers 2 ≡ two_peers))
    ⊎ ((i : ℕ) × (get_elem? (peers_of two_peers) i ≡ some 2)
        × IsTable (remove_peer two_peers 2)
        × (peers_of (remove_peer two_peers 2) ≡ erase i (peers_of two_peers))
        × (clients_of (remove_peer two_peers 2) ≡ erase i (clients_of two_peers))
        × (next_of (remove_peer two_peers 2) ≡ erase i (next_of two_peers))
        × (match_of (remove_peer two_peers 2) ≡ erase i (match_of two_peers)))
remove_peer-erase_example = remove_peer-erase two_peers 2 two_peers-IsTable
