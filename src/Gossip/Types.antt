-- ===== src/Gossip/Types.antt =====
-- The types of gossip_types.h.
use e_roole.Prelude.{ℕ, zero, suc, ◌<◌, ◌≡◌, ◌^◌, List, [], ◌∷◌, length, ◌≤◌, refl}
use e_roole.Wire.Text.{IsString}

-- `gossip_msg_type_t`, as the byte that stands for it on the wire.
abbrev pub msg_ping : ℕ
msg_ping = 1

abbrev pub msg_ack : ℕ
msg_ack = 2

abbrev pub msg_suspect : ℕ
msg_suspect = 4

abbrev pub msg_alive : ℕ
msg_alive = 5

abbrev pub msg_dead : ℕ
msg_dead = 6

abbrev pub msg_join : ℕ
msg_join = 7

abbrev pub msg_leave : ℕ
msg_leave = 8

abbrev pub msg_join_response : ℕ
msg_join_response = 10

abbrev pub max_updates : ℕ
max_updates = 10

pub record Update : Type 0 where
  pub node_id : ℕ
  pub node_type : ℕ
  pub ip_address : List ℕ
  pub gossip_port : ℕ
  pub data_port : ℕ
  pub status : ℕ
  pub incarnation : ℕ
  pub timestamp_ms : ℕ

-- The list `updates` is the front of the array of `max_updates` cells; the cells after it are zero.
pub record Message : Type 0 where
  pub version : ℕ
  pub msg_type : ℕ
  pub flags : ℕ
  pub sender_id : ℕ
  pub sender_type : ℕ
  pub sender_gossip_port : ℕ
  pub sender_data_port : ℕ
  pub sequence_num : ℕ
  pub num_updates : ℕ
  pub updates : List Update

abbrev pub blank_update : Update
blank_update = record {
  node_id = 0;
  node_type = 0;
  ip_address = [];
  gossip_port = 0;
  data_port = 0;
  status = 0;
  incarnation = 0;
  timestamp_ms = 0;
}

-- The first cells of the array, which loops read one by one.
unfoldable pub cells : ℕ → List Update → List Update
cells zero us = []
cells (suc n) [] = blank_update ∷ cells n []
cells (suc n) (u ∷ us) = u ∷ cells n us

pub cells-length : (us : List Update) → cells (length us) us ≡ us
unfolding cells
cells-length [] = refl
cells-length (u ∷ us) = rw (cells-length us) refl

-- The fields fit their machine types, and the address its 16 bytes.
pub record IsUpdate (u : Update) : Type 0 where
  pub node_id : u.node_id < 2 ^ 16
  pub node_type : u.node_type < 2 ^ 8
  pub status : u.status < 2 ^ 8
  pub ip_string : IsString u.ip_address
  pub ip_short : length u.ip_address ≤ 15
  pub gossip_port : u.gossip_port < 2 ^ 16
  pub data_port : u.data_port < 2 ^ 16
  pub incarnation : u.incarnation < 2 ^ 64
  pub timestamp_ms : u.timestamp_ms < 2 ^ 64

-- The header's fields fit their machine types, in the one version that is read.
pub record IsHeader (m : Message) : Type 0 where
  pub version : m.version ≡ 1
  pub flags : m.flags < 2 ^ 16
  pub sender_id : m.sender_id < 2 ^ 16
  pub sequence_num : m.sequence_num < 2 ^ 64
