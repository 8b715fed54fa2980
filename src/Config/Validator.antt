-- ===== src/Config/Validator.antt =====
-- src/config/config_validator.c. An error is its severity; what the messages say is left out. A
-- validator returns whether it gives 0, and the result that it leaves. `is_ip` is inet_pton for
-- AF_INET.
use e_roole.Prelude.{
  ℕ, ◌&&◌, ◌||◌, not, Bool, true, false, List, [], ◌∷◌, ◌++◌, none, some, length, ltb, leb, ◌==◌,
  if◌then◌else◌,
}
use e_roole.Cluster.View.{worker}
use e_roole.Raft.Datastore.Table.{strings_equal}
use e_roole.Config.Text.{ℤ, pos, negsuc, is_alnum, split_at, atoi, to_u16}
use e_roole.Config.Load.{Ports, RooleConfig, router}

-- `validation_result_t`
pub record Result : Type 0 where
  pub valid : Bool
  pub errors : List ℕ

-- `validation_result_init`
abbrev pub fresh_result : Result
fresh_result = record { valid = true; errors = [] }

-- `MAX_VALIDATION_ERRORS`
abbrev pub max_errors : ℕ
max_errors = 16

-- `validation_add_error`
unfoldable pub add_error : ℕ → Result → Result
add_error severity r = if leb max_errors (length r.errors) then r else record {
  valid = if leb 1 severity then false else r.valid;
  errors = r.errors ++ (severity ∷ []);
}

unfoldable pub validate_node_id : ℕ → Result → Bool × Result
validate_node_id node_id r = if node_id == 0 then (false, add_error 2 r) else (true, r)

unfoldable pub validate_node_type : ℕ → Result → Bool × Result
validate_node_type type r =
    if type == 0
    then (false, add_error 2 r)
    else if not (type == router) && not (type == worker)
    then (false, add_error 2 r)
    else (true, r)

abbrev pub is_name_char : ℕ → Bool
is_name_char c = is_alnum c || ((c == 95) || (c == 45))

-- The loop over the characters of the name.
unfoldable pub validate_chars : List ℕ → Result → Bool × Result
validate_chars [] r = (true, r)
validate_chars (c ∷ cs) r =
    let rest = validate_chars cs r in if is_name_char c then rest else (false, add_error 1 r)

unfoldable pub validate_cluster_name : List ℕ → Result → Bool × Result
unfolding validate_chars
validate_cluster_name name r =
    if length name == 0
    then (false, add_error 2 r)
    else if leb 256 (length name)
    then (false, add_error 2 r)
    else validate_chars name r

abbrev pub is_valid_port : ℕ → Bool
is_valid_port port = ltb 0 port && not (port == 22)

unfoldable pub parse_port : List ℕ → ℤ
parse_port addr = elim (split_at 58 addr) [ none ↦ pos 0 | some (ip, port) ↦ atoi port ]

abbrev pub is_positive : ℤ → Bool
is_positive (pos n) = ltb 0 n
is_positive (negsuc n) = false

abbrev pub same_int : ℤ → ℤ → Bool
same_int (pos m) (pos n) = m == n
same_int (negsuc m) (negsuc n) = m == n
same_int (pos m) (negsuc n) = false
same_int (negsuc m) (pos n) = false

-- A port that is optional.
abbrev pub check_optional : ℤ → Result → Result
check_optional port r =
    if is_positive port && not (is_valid_port (to_u16 port)) then add_error 1 r else r

unfoldable pub validate_ports : Ports → Result → Bool × Result
validate_ports p r =
    let gossip_port = parse_port p.gossip_addr in
    let data_port = parse_port p.data_addr in
    if not (is_positive gossip_port)
    then (false, add_error 2 r)
    else if not (is_valid_port (to_u16 gossip_port))
    then (false, add_error 2 r)
    else if not (is_positive data_port)
    then (false, add_error 2 r)
    else if not (is_valid_port (to_u16 data_port))
    then (false, add_error 2 r)
    else (
      true,
      check_optional (parse_port p.metrics_addr) (check_optional (parse_port p.ingress_addr) r),
    )

unfoldable pub validate_port_conflicts : Ports → Result → Bool × Result
validate_port_conflicts p r =
    let gossip_port = parse_port p.gossip_addr in
    let data_port = parse_port p.data_addr in
    let ingress_port = parse_port p.ingress_addr in
    let metrics_port = parse_port p.metrics_addr in
    if same_int gossip_port data_port
    then (false, add_error 2 r)
    else if is_positive ingress_port && same_int ingress_port gossip_port
    then (false, add_error 2 r)
    else if is_positive ingress_port && same_int ingress_port data_port
    then (false, add_error 2 r)
    else if is_positive metrics_port
        && (same_int metrics_port gossip_port
            || (same_int metrics_port data_port
                || (is_positive ingress_port && same_int metrics_port ingress_port)))
    then (false, add_error 2 r)
    else (true, r)

abbrev pub is_router_port : ℤ → Bool
is_router_port (pos n) = ltb 0 n && ltb n 65536
is_router_port (negsuc n) = false

-- The body of the loop of `validate_routers`.
unfoldable pub validate_router : List ℕ → Result → Result
validate_router addr r = if length addr == 0 then add_error 1 r else (elim (split_at 58 addr) [
  | none ↦ add_error 1 r
  | some (ip, port) ↦ if is_router_port (atoi port) then r else add_error 1 r
])

unfoldable pub validate_each : List (List ℕ) → Result → Result
validate_each [] r = r
validate_each (addr ∷ addrs) r = validate_each addrs (validate_router addr r)

unfoldable pub validate_routers : RooleConfig → Result → Bool × Result
validate_routers config r =
    if length config.routers == 0
    then (true, add_error 0 r)
    else (true, validate_each config.routers r)

unfoldable pub validate_capabilities : RooleConfig → Result → Bool × Result
validate_capabilities config r =
    let ingress = is_positive (parse_port config.ports.ingress_addr) in
    let r1 = if (config.node_type == router) && not ingress then add_error 0 r else r in
    (true, if (config.node_type == worker) && ingress then add_error 0 r1 else r1)

-- `0.0.0.0`
abbrev pub any_address : List ℕ
any_address = 48 ∷ 46 ∷ 48 ∷ 46 ∷ 48 ∷ 46 ∷ 48 ∷ []

module _ (is_ip : List ℕ → Bool) where
  unfoldable pub validate_network_reachability : List ℕ → Result → Bool × Result
  validate_network_reachability addr r =
      if length addr == 0 then (true, r) else (elim (split_at 58 addr) [
        | none ↦ (false, add_error 1 r)
        | some (ip, port) ↦
            if leb 64 (length ip)
            then (false, add_error 1 r)
            else if not (is_ip ip)
            then (false, add_error 1 r)
            else (true, if strings_equal ip any_address then add_error 0 r else r)
      ])

  -- `config_validate`
  unfoldable pub validate : RooleConfig → Bool × Result
  validate config =
      let r1 = (validate_node_id config.node_id fresh_result).1 in
      let r2 = (validate_node_type config.node_type r1).1 in
      let r3 = (validate_cluster_name config.cluster_name r2).1 in
      let r4 = (validate_ports config.ports r3).1 in
      let r5 = (validate_port_conflicts config.ports r4).1 in
      let r6 = (validate_routers config r5).1 in
      let r7 = (validate_capabilities config r6).1 in
      let r8 = (validate_network_reachability config.ports.gossip_addr r7).1 in
      let r9 = (validate_network_reachability config.ports.data_addr r8).1 in
      let r10 = (validate_network_reachability config.ports.ingress_addr r9).1 in
      let r11 = (validate_network_reachability config.ports.metrics_addr r10).1 in (r11.valid, r11)
