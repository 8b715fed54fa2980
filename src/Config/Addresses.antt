-- ===== src/Config/Addresses.antt =====
-- Which routers and addresses src/config/config_validator.c accepts.
use e_roole.Prelude.{
  ℕ, ◌≡◌, refl, ◌&&◌, ◌||◌, not, Bool, true, false, List, [], ◌∷◌, none, some, length, leb, ◌==◌,
  if◌then◌else◌, arith, Bool-cases, Option-cases, inl, inr,
}
use e_roole.Cluster.View.{worker}
use e_roole.Raft.Datastore.Table.{strings_equal}
use e_roole.Config.Text.{split_at, atoi}
use e_roole.Config.Load.{RooleConfig, router}
use e_roole.Config.Validator.{
  Result, add_error, is_router_port, validate_router, validate_each, validate_routers,
  validate_capabilities, any_address, validate_network_reachability,
}
use e_roole.Config.Valid.{
  Checks, Checks-pass, Checks-warn, Checks-error, Checks-compose, Checks-weaken,
}
use e_roole.Config.Accepted.{Checks-hint}

abbrev is_router : List ℕ → Bool
is_router addr =
    not (length addr == 0)
    && (elim (split_at 58 addr) [ none ↦ false | some (ip, port) ↦ is_router_port (atoi port) ])

router-Checks : (addr : List ℕ) → Checks 0 (is_router addr) (validate_router addr)
unfolding validate_router
router-Checks addr = elim (Bool-cases (length addr == 0)) [
  | inl e ↦ rw (e, validate_router) (Checks-error 1 (omega arith))
  | inr e ↦ elim (Option-cases (split_at 58 addr)) [
    | inl bare ↦ rw (e, bare, validate_router) (Checks-error 1 (omega arith))
    | inr ((ip, port), found) ↦ elim (Bool-cases (is_router_port (atoi port))) [
      | inl good ↦ rw (e, found, validate_router, good) Checks-pass
      | inr bad ↦ rw (e, found, validate_router, bad) (Checks-error 1 (omega arith))
    ]
  ]
]

abbrev pub are_routers : List (List ℕ) → Bool
are_routers [] = true
are_routers (addr ∷ addrs) = is_router addr && are_routers addrs

each-Checks : (addrs : List (List ℕ)) → Checks 0 (are_routers addrs) (validate_each addrs)
unfolding validate_each
each-Checks [] = Checks-pass
each-Checks (addr ∷ addrs) = Checks-compose (router-Checks addr) (each-Checks addrs)

pub routers-Checks :
    (config : RooleConfig)
    → Checks 1 (are_routers config.routers) (λ r. (validate_routers config r).1)
unfolding validate_routers
routers-Checks config = go config.routers
  where
    go :
        (addrs : List (List ℕ))
        → Checks 1 (are_routers addrs) (λ r.
          let out : Bool × Result =
            if length addrs == 0 then (true, add_error 0 r) else (true, validate_each addrs r) in
          out.1)
    go [] = Checks-warn 0 refl
    go (addr ∷ addrs) =
        let some_addr : (length (addr ∷ addrs) == 0) ≡ false = ground arith in
        rw some_addr (Checks-weaken (each-Checks (addr ∷ addrs)) (omega arith))

pub capabilities-Checks :
    (config : RooleConfig) → Checks 1 true (λ r. (validate_capabilities config r).1)
unfolding validate_capabilities
capabilities-Checks config = elim (Bool-cases (config.node_type == router)) [
  | inl routes ↦
      let other : (config.node_type == worker) ≡ false = ground arith in
      rw (routes, other, validate_capabilities) (Checks-hint _)
  | inr other ↦ rw (other, validate_capabilities) (Checks-hint _)
]

module _ (is_ip : List ℕ → Bool) where
  abbrev pub is_address : List ℕ → Bool
  is_address addr = (length addr == 0) || (elim (split_at 58 addr) [
    | none ↦ false
    | some (ip, port) ↦ not (leb 64 (length ip)) && is_ip ip
  ])

  pub network-Checks :
      (addr : List ℕ)
      → Checks 1 (is_address addr) (λ r. (validate_network_reachability is_ip addr r).1)
  unfolding validate_network_reachability
  network-Checks addr = elim (Bool-cases (length addr == 0)) [
    | inl e ↦ rw (e, validate_network_reachability) (Checks-weaken Checks-pass (omega arith))
    | inr e ↦ elim (Option-cases (split_at 58 addr)) [
      | inl bare ↦
          rw (e, bare, validate_network_reachability)
            (Checks-weaken (Checks-error 1 (omega arith)) (omega arith))
      | inr ((ip, port), found) ↦ elim (Bool-cases (leb 64 (length ip))) [
        | inl long ↦
            rw (e, found, validate_network_reachability, long)
              (Checks-weaken (Checks-error 1 (omega arith)) (omega arith))
        | inr short ↦ elim (Bool-cases (is_ip ip)) [
          | inl good ↦
              rw (e, found, validate_network_reachability, short, good)
                (Checks-hint (strings_equal ip any_address))
          | inr bad ↦
              rw (e, found, validate_network_reachability, short, bad)
                (Checks-weaken (Checks-error 1 (omega arith)) (omega arith))
        ]
      ]
    ]
  ]
