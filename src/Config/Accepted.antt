-- ===== src/Config/Accepted.antt =====
-- Which ids, types, names and ports src/config/config_validator.c accepts.
use e_roole.Prelude.{
  ℕ, ◌≤◌, ◌≡◌, refl, subst, ◌&&◌, ◌||◌, not, Bool, true, false, List, [], ◌∷◌, length, leb, ◌==◌,
  if◌then◌else◌, arith, Bool-cases, inl, inr,
}
use e_roole.Cluster.View.{worker}
use e_roole.Config.Text.{ℤ, to_u16}
use e_roole.Config.Load.{Ports, router}
use e_roole.Config.Validator.{
  Result, add_error, validate_node_id, validate_node_type, is_name_char, validate_chars,
  validate_cluster_name, is_valid_port, parse_port, is_positive, same_int, check_optional,
  validate_ports, validate_port_conflicts,
}
use e_roole.Config.Valid.{
  Checks, Checks-pass, Checks-warn, Checks-error, Checks-compose, Checks-weaken,
}

pub node_id-Checks :
    (node_id : ℕ) → Checks 0 (not (node_id == 0)) (λ r. (validate_node_id node_id r).1)
unfolding validate_node_id
node_id-Checks node_id = elim (Bool-cases (node_id == 0)) [
  | inl e ↦ rw (e, validate_node_id) (Checks-error 2 (omega arith))
  | inr e ↦ rw (e, validate_node_id) Checks-pass
]

abbrev pub is_type : ℕ → Bool
is_type type = (type == router) || (type == worker)

pub node_type-Checks : (type : ℕ) → Checks 0 (is_type type) (λ r. (validate_node_type type r).1)
unfolding validate_node_type
node_type-Checks type = elim (Bool-cases (type == 0)) [
  | inl e ↦
      let bad : is_type type ≡ false = ground arith in
      rw (bad, e, validate_node_type) (Checks-error 2 (omega arith))
  | inr e ↦ elim (Bool-cases (is_type type)) [
    | inl good ↦
        let test : (not (type == router) && not (type == worker)) ≡ false = ground arith in
        rw (good, e, test, validate_node_type) Checks-pass
    | inr bad ↦
        let test : (not (type == router) && not (type == worker)) ≡ true = ground arith in
        rw (bad, e, test, validate_node_type) (Checks-error 2 (omega arith))
  ]
]

abbrev all_chars : List ℕ → Bool
all_chars [] = true
all_chars (c ∷ cs) = is_name_char c && all_chars cs

abbrev pub is_name : List ℕ → Bool
is_name name = not (length name == 0) && (not (leb 256 (length name)) && all_chars name)

chars-Checks : (name : List ℕ) → Checks 0 (all_chars name) (λ r. (validate_chars name r).1)
unfolding validate_chars
chars-Checks [] = Checks-pass
chars-Checks (c ∷ cs) = elim (Bool-cases (is_name_char c)) [
  | inl good ↦ rw (good, validate_chars) (chars-Checks cs)
  | inr bad ↦ rw (bad, validate_chars) (Checks-error 1 (omega arith))
]

pub cluster_name-Checks :
    (name : List ℕ) → Checks 0 (is_name name) (λ r. (validate_cluster_name name r).1)
unfolding validate_cluster_name
cluster_name-Checks name = elim (Bool-cases (length name == 0)) [
  | inl e ↦ rw (e, validate_cluster_name) (Checks-error 2 (omega arith))
  | inr e ↦ elim (Bool-cases (leb 256 (length name))) [
    | inl long ↦ rw (e, long, validate_cluster_name) (Checks-error 2 (omega arith))
    | inr short ↦ rw (e, short, validate_cluster_name) (chars-Checks name)
  ]
]

abbrev is_port : ℤ → Bool
is_port p = is_positive p && is_valid_port (to_u16 p)

abbrev is_optional : ℤ → Bool
is_optional p = not (is_positive p && not (is_valid_port (to_u16 p)))

-- A validator that returns with an error where `c` holds.
Checks-refuse :
    {w : ℕ} {good : Bool} (v : Result → Bool × Result) (s : ℕ) (c : Bool)
    → 1 ≤ s
    → Checks w good (λ r. (v r).1)
    → Checks w
        (not c && good)
        (λ r. let out : Bool × Result = if c then (false, add_error s r) else v r in out.1)
Checks-refuse v s true big k = Checks-weaken (Checks-error s big) (omega arith)
Checks-refuse v s false big k = k

Checks-test : (s : ℕ) (c : Bool) → 1 ≤ s → Checks 0 (not c) (λ r. if c then add_error s r else r)
Checks-test s true big = Checks-error s big
Checks-test s false big = Checks-pass

pub Checks-hint : (c : Bool) → Checks 1 true (λ r. if c then add_error 0 r else r)
Checks-hint true = Checks-warn 0 refl
Checks-hint false = Checks-weaken Checks-pass (omega arith)

optional-Checks : (p : ℤ) → Checks 0 (is_optional p) (check_optional p)
optional-Checks p = Checks-test 1 (is_positive p && not (is_valid_port (to_u16 p))) (omega arith)

abbrev pub are_ports : Ports → Bool
are_ports p =
    is_port (parse_port p.gossip_addr)
    && (is_port (parse_port p.data_addr)
        && (is_optional (parse_port p.ingress_addr) && is_optional (parse_port p.metrics_addr)))

pub ports-Checks : (p : Ports) → Checks 0 (are_ports p) (λ r. (validate_ports p r).1)
unfolding validate_ports
ports-Checks p =
    let g = parse_port p.gossip_addr in
    let d = parse_port p.data_addr in
    subst (λ b. Checks 0 b (λ r. (validate_ports p r).1))
      (regroup (is_positive g) (is_valid_port (to_u16 g)) (is_positive d) (is_valid_port (to_u16 d))
        _)
      (Checks-refuse _ 2 (not (is_positive g)) (omega arith) (
        Checks-refuse _ 2 (not (is_valid_port (to_u16 g))) (omega arith) (
          Checks-refuse _ 2 (not (is_positive d)) (omega arith) (
            Checks-refuse _ 2 (not (is_valid_port (to_u16 d))) (omega arith) (
              Checks-compose (optional-Checks (parse_port p.ingress_addr))
                (optional-Checks (parse_port p.metrics_addr)))))))
  where
    regroup :
        (a b c d e : Bool)
        → (not (not a) && (not (not b) && (not (not c) && (not (not d) && e))))
          ≡ ((a && b) && ((c && d) && e))
    regroup a b c d e = ground arith

-- No two ports in use are the same.
abbrev pub are_apart : Ports → Bool
are_apart p =
    let g = parse_port p.gossip_addr in
    let d = parse_port p.data_addr in
    let i = parse_port p.ingress_addr in
    let m = parse_port p.metrics_addr in
    not (same_int g d)
    && (not (is_positive i && same_int i g)
        && (not (is_positive i && same_int i d)
            && not (
                is_positive m
                && (same_int m g || (same_int m d || (is_positive i && same_int m i))))))

pub conflicts-Checks : (p : Ports) → Checks 0 (are_apart p) (λ r. (validate_port_conflicts p r).1)
unfolding validate_port_conflicts
conflicts-Checks p =
    let g = parse_port p.gossip_addr in
    let d = parse_port p.data_addr in
    let i = parse_port p.ingress_addr in
    let m = parse_port p.metrics_addr in
    four (same_int g d) (is_positive i && same_int i g) (is_positive i && same_int i d)
      (is_positive m && (same_int m g || (same_int m d || (is_positive i && same_int m i))))
  where
    four :
        (a b c d : Bool)
        → Checks 0 (not a && (not b && (not c && not d))) (λ r.
          let bad : Bool × Result = (false, add_error 2 r) in
          (if a then bad else if b then bad else if c then bad else if d then bad else (true, r)).1)
    four true b c d = Checks-error 2 (omega arith)
    four false true c d = Checks-error 2 (omega arith)
    four false false true d = Checks-error 2 (omega arith)
    four false false false true = Checks-error 2 (omega arith)
    four false false false false = Checks-pass
