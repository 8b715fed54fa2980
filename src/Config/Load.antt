-- ===== src/Config/Load.antt =====
-- src/config/config.c: the lines of an INI file and the configuration that they make.
use e_roole.Prelude.{
  ℕ, zero, suc, ◌-◌, ◌||◌, Bool, true, List, [], ◌∷◌, ◌++◌, Option, none, some, length, take, ◌==◌,
  if◌then◌else◌,
}
use mathlib.Core.Option
use e_roole.Cluster.View.{worker}
use e_roole.Config.Words.{
  cluster_section, node_section, logging_section, name_key, routers_key, id_key, type_key,
  gossip_addr_key, gossip_key, data_addr_key, data_key, ingress_addr_key, ingress_key,
  metrics_addr_key, metrics_key, level_key, router_word, worker_word, debug_word, info_word,
  warn_word, error_word,
}
use e_roole.Config.Text.{same_word, skip_spaces, trim, split_at, atoi, to_u16}

-- `node_ports_t` and `roole_config_t`; the list of routers is the first `router_count` cells.
pub record Ports : Type 0 where
  pub gossip_addr : List ℕ
  pub data_addr : List ℕ
  pub ingress_addr : List ℕ
  pub metrics_addr : List ℕ

pub record RooleConfig : Type 0 where
  pub cluster_name : List ℕ
  pub node_id : ℕ
  pub node_type : ℕ
  pub ports : Ports
  pub routers : List (List ℕ)
  pub log_level : ℕ

-- After the memset
abbrev pub blank_config : RooleConfig
blank_config = record {
  cluster_name = [];
  node_id = 0;
  node_type = 0;
  ports = record { gossip_addr = []; data_addr = []; ingress_addr = []; metrics_addr = [] };
  routers = [];
  log_level = 0;
}

-- `is_comment`
abbrev starts_comment : List ℕ → Bool
starts_comment [] = true
starts_comment (c ∷ cs) = (c == 59) || (c == 35)

unfoldable pub is_comment : List ℕ → Bool
unfolding skip_spaces
is_comment line = starts_comment (skip_spaces line)

-- `is_section`: the name, in a buffer of `max_len` characters.
abbrev section_from : ℕ → List ℕ → Option (List ℕ)
section_from max_len [] = none
section_from max_len (c ∷ cs) =
    if c == 91
    then Option.map (λ (s : List ℕ × List ℕ). take max_len s.0) (split_at 93 cs)
    else none

unfoldable pub is_section : ℕ → List ℕ → Option (List ℕ)
unfolding skip_spaces split_at
is_section max_len line = section_from max_len (skip_spaces line)

-- `parse_key_value` into buffers of MAX_CONFIG_STRING characters
unfoldable pub parse_key_value : List ℕ → Option (List ℕ × List ℕ)
parse_key_value line = elim (split_at 61 line) [
  | none ↦ none
  | some (key, value) ↦ some (trim (take 255 key), trim (take 255 value))
]

-- The tokens of strtok are the parts between the separators that are not empty.
abbrev part : List ℕ → List (List ℕ) → List (List ℕ)
part [] tokens = tokens
part (c ∷ cs) tokens = (c ∷ cs) ∷ tokens

unfoldable pub tokens : ℕ → List ℕ → List ℕ → List (List ℕ)
tokens sep cur [] = part cur []
tokens sep cur (c ∷ cs) =
    let more = part cur (tokens sep [] cs) in
    let longer = tokens sep (cur ++ (c ∷ [])) cs in if c == sep then more else longer

-- The loop of `parse_list`, with room for `n` items.
abbrev item : List ℕ → List (List ℕ) → List (List ℕ) → List (List ℕ)
item [] fewer same = same
item (c ∷ cs) fewer same = take 255 (c ∷ cs) ∷ fewer

unfoldable pub list_items : List (List ℕ) → ℕ → List (List ℕ)
list_items ts zero = []
list_items [] (suc n) = []
list_items (t ∷ ts) (suc n) = item (trim t) (list_items ts n) (list_items ts (suc n))

-- `parse_list`
unfoldable pub parse_list : List ℕ → ℕ → List (List ℕ)
unfolding tokens list_items
parse_list value max_items = list_items (tokens 59 [] (take 4095 value)) max_items

-- `MAX_CONFIG_ROUTERS`
abbrev pub max_routers : ℕ
max_routers = 16

-- `NODE_TYPE_ROUTER`
abbrev pub router : ℕ
router = 1

abbrev pub node_type_of : List ℕ → ℕ
node_type_of value =
    if same_word value router_word
    then router
    else if same_word value worker_word
    then worker
    else 0

-- DEBUG, INFO, WARN and ERROR are 0 to 3.
abbrev pub log_level_of : List ℕ → ℕ
log_level_of value =
    if same_word value debug_word
    then 0
    else if same_word value info_word
    then 1
    else if same_word value warn_word
    then 2
    else if same_word value error_word
    then 3
    else 1

unfoldable pub cluster_entry : List ℕ → List ℕ → RooleConfig → RooleConfig
cluster_entry key value config =
    if same_word key name_key
    then record config { cluster_name = take 255 value }
    else if same_word key routers_key
    then record config { routers = parse_list value max_routers }
    else config

unfoldable pub node_entry : List ℕ → List ℕ → RooleConfig → RooleConfig
node_entry key value config =
    if same_word key id_key
    then record config { node_id = to_u16 (atoi value) }
    else if same_word key type_key
    then record config { node_type = node_type_of value }
    else if same_word key gossip_addr_key || same_word key gossip_key
    then record config { ports = record (config.ports) { gossip_addr = take 255 value } }
    else if same_word key data_addr_key || same_word key data_key
    then record config { ports = record (config.ports) { data_addr = take 255 value } }
    else if same_word key ingress_addr_key || same_word key ingress_key
    then record config { ports = record (config.ports) { ingress_addr = take 255 value } }
    else if same_word key metrics_addr_key || same_word key metrics_key
    then record config { ports = record (config.ports) { metrics_addr = take 255 value } }
    else config

unfoldable pub logging_entry : List ℕ → List ℕ → RooleConfig → RooleConfig
logging_entry key value config =
    if same_word key level_key then record config { log_level = log_level_of value } else config

-- What a key and its value make of the configuration, by the section they stand in.
unfoldable pub with_entry : List ℕ → List ℕ → List ℕ → RooleConfig → RooleConfig
unfolding cluster_entry node_entry logging_entry
with_entry section key value config =
    if same_word section cluster_section
    then cluster_entry key value config
    else if same_word section node_section
    then node_entry key value config
    else if same_word section logging_section
    then logging_entry key value config
    else config

-- The body of the loop of `config_load_from_file`: the section and the configuration after a line.
unfoldable pub load_line : List ℕ → List ℕ → RooleConfig → List ℕ × RooleConfig
load_line line section config =
    if is_comment line then (section, config) else (elim (is_section 63 line) [
      | some name ↦ (name, config)
      | none ↦ elim (parse_key_value line) [
        | none ↦ (section, config)
        | some (key, value) ↦ (section, with_entry section key value config)
      ]
    ])

unfoldable pub load_lines : List (List ℕ) → List ℕ → RooleConfig → RooleConfig
load_lines [] section config = config
load_lines (line ∷ lines) section config =
    let after = load_line line section config in load_lines lines after.0 after.1

-- What fgets reads, less the newlines. A line buffer has room for 1023 characters.
abbrev pub line_room : ℕ
line_room = 1023

unfoldable pub file_lines : ℕ → List ℕ → List ℕ → List (List ℕ)
file_lines room cur [] = part cur []
file_lines room cur (c ∷ cs) =
    let done = cur ∷ file_lines line_room [] cs in
    let full = (cur ++ (c ∷ [])) ∷ file_lines line_room [] cs in
    let more = file_lines (room - 1) (cur ++ (c ∷ [])) cs in
    if c == 10 then done else if room == 1 then full else more

-- The checks at the end of `config_load_from_file`; `none` is its -1.
unfoldable pub checked : RooleConfig → Option RooleConfig
checked config =
    if length config.cluster_name == 0
    then none
    else if config.node_id == 0
    then none
    else if config.node_type == 0
    then none
    else if length config.ports.gossip_addr == 0
    then none
    else if length config.ports.data_addr == 0
    then none
    else some config

-- `config_load_from_file` on the bytes of the file, none of which is 0.
unfoldable pub load_from_file : List ℕ → Option RooleConfig
load_from_file bytes = checked (load_lines (file_lines line_room [] bytes) [] blank_config)

-- `config_parse_address`: the address and the port.
unfoldable pub parse_address : List ℕ → List ℕ × ℕ
parse_address addr_str = elim (split_at 58 (take 255 addr_str)) [
  | none ↦ (take 15 (take 255 addr_str), 0)
  | some (ip, port) ↦ (take 15 ip, to_u16 (atoi port))
]
