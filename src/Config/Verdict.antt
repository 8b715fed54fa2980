-- ===== src/Config/Verdict.antt =====
-- What config_validate of src/config/config_validator.c says of a configuration.
use e_roole.Prelude.{ℕ, ◌≤◌, ◌≡◌, ◌&&◌, not, Bool, true, List, length, ◌==◌, arith}
use e_roole.Config.Load.{RooleConfig}
use e_roole.Config.Validator.{fresh_result, validate}
use e_roole.Config.Valid.{Checks-compose}
use e_roole.Config.Accepted.{
  is_type, is_name, are_ports, are_apart, node_id-Checks, node_type-Checks, cluster_name-Checks,
  ports-Checks, conflicts-Checks,
}
use e_roole.Config.Addresses.{
  are_routers, is_address, routers-Checks, capabilities-Checks, network-Checks,
}

-- What a configuration has to satisfy.
abbrev pub is_accepted : (List ℕ → Bool) → RooleConfig → Bool
is_accepted is_ip config =
    not (config.node_id == 0)
    && (is_type config.node_type
        && (is_name config.cluster_name
            && (are_ports config.ports
                && (are_apart config.ports
                    && (are_routers config.routers
                        && (true
                            && (is_address is_ip config.ports.gossip_addr
                                && (is_address is_ip config.ports.data_addr
                                    && (is_address is_ip config.ports.ingress_addr
                                        && is_address is_ip config.ports.metrics_addr)))))))))

-- The validation accepts a configuration exactly if it has a node id that is not 0, one of the two
-- types, a name of 1 to 255 letters, digits, `_` and `-`, a gossip and a data port that are
-- positive and, cut to 16 bits, neither 0 nor 22, an ingress and a metrics port for which the same
-- holds if they are positive, no two of these ports alike, routers with ports from 1 to 65535, and
-- addresses that are empty or have fewer than 64 characters before a colon, which inet_pton takes.
-- A port is the int that atoi gives for what follows the colon, as glibc does with a long of 64
-- bits. That only 16 messages are kept hides no error, and where it accepts it leaves at most 6.
pub validate-is_accepted :
    (is_ip : List ℕ → Bool) (config : RooleConfig)
    → ((validate is_ip config).0 ≡ is_accepted is_ip config)
      × ((validate is_ip config).0 ≡ true → length (validate is_ip config).1.errors ≤ 6)
unfolding validate
validate-is_accepted is_ip config =
    let p = config.ports in
    let all = Checks-compose (node_id-Checks config.node_id) (
      Checks-compose (node_type-Checks config.node_type) (
        Checks-compose (cluster_name-Checks config.cluster_name) (
          Checks-compose (ports-Checks p) (
            Checks-compose (conflicts-Checks p) (
              Checks-compose (routers-Checks config) (
                Checks-compose (capabilities-Checks config) (
                  Checks-compose (network-Checks is_ip p.gossip_addr) (
                    Checks-compose (network-Checks is_ip p.data_addr) (
                      Checks-compose (network-Checks is_ip p.ingress_addr)
                        (network-Checks is_ip p.metrics_addr)))))))))) in
    all.runs fresh_result (λ e. omega arith)
