-- ===== src/Config/Words.antt =====
-- The words of the files that src/config/config.c reads.
use e_roole.Prelude.{ℕ, List, [], ◌∷◌}

abbrev pub cluster_section : List ℕ
cluster_section = b'C' ∷ b'l' ∷ b'u' ∷ b's' ∷ b't' ∷ b'e' ∷ b'r' ∷ []

abbrev pub node_section : List ℕ
node_section = b'N' ∷ b'o' ∷ b'd' ∷ b'e' ∷ []

abbrev pub logging_section : List ℕ
logging_section = b'L' ∷ b'o' ∷ b'g' ∷ b'g' ∷ b'i' ∷ b'n' ∷ b'g' ∷ []

abbrev pub name_key : List ℕ
name_key = b'n' ∷ b'a' ∷ b'm' ∷ b'e' ∷ []

abbrev pub routers_key : List ℕ
routers_key = b'r' ∷ b'o' ∷ b'u' ∷ b't' ∷ b'e' ∷ b'r' ∷ b's' ∷ []

abbrev pub id_key : List ℕ
id_key = b'i' ∷ b'd' ∷ []

abbrev pub type_key : List ℕ
type_key = b't' ∷ b'y' ∷ b'p' ∷ b'e' ∷ []

abbrev pub gossip_addr_key : List ℕ
gossip_addr_key = b'g' ∷ b'o' ∷ b's' ∷ b's' ∷ b'i' ∷ b'p' ∷ b'_' ∷ b'a' ∷ b'd' ∷ b'd' ∷ b'r' ∷ []

abbrev pub gossip_key : List ℕ
gossip_key = b'g' ∷ b'o' ∷ b's' ∷ b's' ∷ b'i' ∷ b'p' ∷ []

abbrev pub data_addr_key : List ℕ
data_addr_key = b'd' ∷ b'a' ∷ b't' ∷ b'a' ∷ b'_' ∷ b'a' ∷ b'd' ∷ b'd' ∷ b'r' ∷ []

abbrev pub data_key : List ℕ
data_key = b'd' ∷ b'a' ∷ b't' ∷ b'a' ∷ []

abbrev pub ingress_addr_key : List ℕ
ingress_addr_key =
    b'i' ∷ b'n' ∷ b'g' ∷ b'r' ∷ b'e' ∷ b's' ∷ b's' ∷ b'_' ∷ b'a' ∷ b'd' ∷ b'd' ∷ b'r' ∷ []

abbrev pub ingress_key : List ℕ
ingress_key = b'i' ∷ b'n' ∷ b'g' ∷ b'r' ∷ b'e' ∷ b's' ∷ b's' ∷ []

abbrev pub metrics_addr_key : List ℕ
metrics_addr_key =
    b'm' ∷ b'e' ∷ b't' ∷ b'r' ∷ b'i' ∷ b'c' ∷ b's' ∷ b'_' ∷ b'a' ∷ b'd' ∷ b'd' ∷ b'r' ∷ []

abbrev pub metrics_key : List ℕ
metrics_key = b'm' ∷ b'e' ∷ b't' ∷ b'r' ∷ b'i' ∷ b'c' ∷ b's' ∷ []

abbrev pub level_key : List ℕ
level_key = b'l' ∷ b'e' ∷ b'v' ∷ b'e' ∷ b'l' ∷ []

abbrev pub router_word : List ℕ
router_word = b'R' ∷ b'O' ∷ b'U' ∷ b'T' ∷ b'E' ∷ b'R' ∷ []

abbrev pub worker_word : List ℕ
worker_word = b'W' ∷ b'O' ∷ b'R' ∷ b'K' ∷ b'E' ∷ b'R' ∷ []

abbrev pub debug_word : List ℕ
debug_word = b'D' ∷ b'E' ∷ b'B' ∷ b'U' ∷ b'G' ∷ []

abbrev pub info_word : List ℕ
info_word = b'I' ∷ b'N' ∷ b'F' ∷ b'O' ∷ []

abbrev pub warn_word : List ℕ
warn_word = b'W' ∷ b'A' ∷ b'R' ∷ b'N' ∷ []

abbrev pub error_word : List ℕ
error_word = b'E' ∷ b'R' ∷ b'R' ∷ b'O' ∷ b'R' ∷ []
