-- ===== src/Node/Pool/RoundRobin.antt =====
-- The choice of peer_pool_select_round_robin of src/node/peers/peer_pool.c.
use e_roole.Prelude.{
  ℕ, zero, suc, ◌+◌, ◌-◌, ◌%◌, ◌^◌, ◌<◌, ◌≡◌, ◌⊎◌, inl, inr, refl, ap, sym, ◌∙◌, true, false, List,
  [], ◌∷◌, some, length, get_elem?, get_elem?-some, All, arith, Bool-cases, ltb,
}
use native.Mathlib.Nat.{mod-eq_of_lt, mod-lt, mod-add-mod, add-mod_right}
use e_roole.Node.Pool.{Peer, Pool, is_executor, try_peers, select_round_robin}

-- Around a ring of `size` places, every place comes up within `size` steps from any start.
reaches_place : (size start i : ℕ) → i < size → (j : ℕ) × (j < size) × ((start + j) % size ≡ i)
reaches_place size start i h =
    let r = start % size in
    let below : r < size = mod-lt start (omega arith) in
    elim (Bool-cases (ltb i r)) [
      | inl before ↦
          let j = i + size - r in
          let round : r + j ≡ i + size = ground arith in
          (
            j,
            ground arith,
            sym (mod-add-mod start size j)
                ∙ ap (λ n. n % size) round
                ∙ add-mod_right i size
                ∙ mod-eq_of_lt h,
          )
      | inr after ↦
          let j = i - r in
          let there : r + j ≡ i = ground arith in
          (
            j,
            ground arith,
            sym (mod-add-mod start size j) ∙ ap (λ n. n % size) there ∙ mod-eq_of_lt h,
          )
    ]

abbrev pub Chosen : List Peer → ℕ → Type 0
Chosen ps id =
    (i : ℕ) × (p : Peer) × (get_elem? ps i ≡ some p) × (is_executor p ≡ true) × (id ≡ p.node_id)

-- The loop chooses an executor, or has tried as many places as it had attempts, and no executor was
-- at any of them.
abbrev pub NoneTried : List Peer → ℕ → ℕ → Type 0
NoneTried ps n index =
    (j : ℕ) (p : Peer)
    → j < n
    → get_elem? ps ((index + j) % length ps) ≡ some p
    → is_executor p ≡ false

NoneTried-suc :
    (ps : List Peer) (n index : ℕ) (p : Peer)
    → get_elem? ps (index % length ps) ≡ some p
    → is_executor p ≡ false
    → NoneTried ps n (index + 1)
    → NoneTried ps (suc n) index
NoneTried-suc ps n index p g miss tried zero q h g' =
    let first : index + 0 ≡ index = omega arith in
    let same : some p ≡ some q = sym g ∙ ap (λ k. get_elem? ps (k % length ps)) (sym first) ∙ g' in
    let is_p : p ≡ q = cc in rw (← is_p) miss
NoneTried-suc ps n index p g miss tried (suc k) q h g' =
    let later : index + 1 + k ≡ index + suc k = omega arith in
    tried k q (omega arith) (ap (λ m. get_elem? ps (m % length ps)) later ∙ g')

-- No peer is alive and can execute.
abbrev pub AllIdle : List Peer → Type 0
AllIdle ps = All (λ p. is_executor p ≡ false) ps

get_elem?-AllIdle :
    (ps : List Peer)
    → ((i : ℕ) (p : Peer) → get_elem? ps i ≡ some p → is_executor p ≡ false)
    → AllIdle ps
get_elem?-AllIdle [] h = tt
get_elem?-AllIdle (p ∷ ps) h = (h 0 p refl, get_elem?-AllIdle ps λ i q g. h (suc i) q g)

get_elem?-bound : (ps : List Peer) (i : ℕ) (p : Peer) → get_elem? ps i ≡ some p → i < length ps
get_elem?-bound [] i p g = absurd cc
get_elem?-bound (x ∷ ps) zero p g = omega arith
get_elem?-bound (x ∷ ps) (suc i) p g = omega (arith, get_elem?-bound ps i p g)

try_peers-outcome :
    (ps : List Peer) (n index : ℕ)
    → 0 < length ps
    → index + n < 2 ^ 64
    → Chosen ps (try_peers ps n index).0 ⊎ (((try_peers ps n index).0 ≡ 0) × NoneTried ps n index)
unfolding try_peers
try_peers-outcome ps zero index some_peers small = inr (refl, λ j p h g. absurd (omega arith))
try_peers-outcome ps (suc n) index some_peers small =
    let (p, g) = get_elem?-some ps (index % length ps) (mod-lt index some_peers) in
    let next : (index + 1) % 2 ^ 64 ≡ index + 1 = omega arith in
    elim (Bool-cases (is_executor p)) [
      | inl hit ↦ inl (index % length ps, p, g, hit, rw (g, try_peers, hit) refl)
      | inr miss ↦
          rw (g, try_peers, miss, next)
            (elim (try_peers-outcome ps n (index + 1) some_peers (omega arith)) [
              | inl chosen ↦ inl chosen
              | inr (nobody, tried) ↦ inr (nobody, NoneTried-suc ps n index p g miss tried)
            ])
    ]

-- Of a pool with peers, while the global index has not come near 2 ^ 64, the round-robin choice
-- returns the id of a peer of the pool that is alive and can execute, or it returns 0 and no peer of
-- the pool is alive and can execute.
pub select_round_robin-outcome :
    (pool : Pool) (index : ℕ)
    → 0 < length pool.peers
    → index + length pool.peers < 2 ^ 64
    → Chosen pool.peers (select_round_robin pool index).0
      ⊎ (((select_round_robin pool index).0 ≡ 0) × AllIdle pool.peers)
unfolding select_round_robin
select_round_robin-outcome pool index some_peers small =
    let ps = pool.peers in
    elim (try_peers-outcome ps (length ps) index some_peers small) [
      | inl chosen ↦ inl chosen
      | inr (nobody, tried) ↦ inr (
        nobody,
        get_elem?-AllIdle ps λ i p g.
            let inside = get_elem?-bound ps i p g in
            let (j, short, place) = reaches_place (length ps) index i inside in
            tried j p short (ap (get_elem? ps) place ∙ g),
      )
    ]
