-- ===== src/Gossip/Swim.antt =====
-- The state of the SWIM protocol of gossip_protocol.h, what it asks of its caller, and the pieces
-- that its handlers share. All callbacks are set. An address is the list of its characters, and
-- `now` is what time_now_ms returns throughout one call.
pub mod Handlers
pub mod Rounds
pub mod Views
pub mod Reach
pub mod Runs
pub mod Timers
pub mod Answers
pub mod Join
use e_roole.Prelude.{
  ℕ, zero, suc, ◌+◌, ◌%◌, ◌^◌, ◌&&◌, not, Bool, true, false, List, [], ◌∷◌, ◌++◌, Option, none,
  some, set, take, replicate, ◌==◌, if◌then◌else◌,
}
use e_roole.Slots.{find_slot}
use e_roole.Cluster.View.{Member, View, is_dead}
use e_roole.Gossip.Types.{Update, Message}

pub record Config : Type 0 where
  pub protocol_period_ms : ℕ
  pub ack_timeout_ms : ℕ
  pub suspect_timeout_ms : ℕ
  pub dead_timeout_ms : ℕ
  pub fanout : ℕ
  pub max_piggyback : ℕ

-- `gossip_default_config`
abbrev pub default_config : Config
default_config = record {
  protocol_period_ms = 1000;
  ack_timeout_ms = 500;
  suspect_timeout_ms = 5000;
  dead_timeout_ms = 5000;
  fanout = 3;
  max_piggyback = 10;
}

pub record Stats : Type 0 where
  pub pings_sent : ℕ
  pub acks_received : ℕ
  pub ack_timeouts : ℕ
  pub suspect_count : ℕ
  pub dead_count : ℕ
  pub updates_sent : ℕ
  pub updates_received : ℕ

pub record PendingAck : Type 0 where
  pub target_node : ℕ
  pub ping_sent_ms : ℕ
  pub active : Bool

pub record Protocol : Type 0 where
  pub my_id : ℕ
  pub my_type : ℕ
  pub my_ip : List ℕ
  pub gossip_port : ℕ
  pub data_port : ℕ
  pub incarnation : ℕ
  pub sequence_num : ℕ
  pub config : Config
  pub view : View
  pub pending_acks : List PendingAck
  pub stats : Stats

-- The callbacks, in the order of their calls. A message without a destination is for all peers.
pub data Effect : Type 0 where
  sends : Message → Option (List ℕ) → ℕ → Effect
  tells_alive : ℕ → Update → Effect
  tells_suspect : ℕ → ℕ → Effect
  tells_dead : ℕ → Effect

-- The protocol after a call, and the callbacks that it made.
abbrev pub Result : Type 0
Result = Protocol × List Effect

abbrev pub and_next : Result → (Protocol → Result) → Result
and_next r f = let s = f r.0 in (s.0, r.1 ++ s.1)

-- A loop over the updates of a message.
unfoldable pub each : (Protocol → Update → Result) → List Update → Protocol → Result
each f [] p = (p, [])
each f (u ∷ us) p = and_next (f p u) (each f us)

abbrev pub next_u64 : ℕ → ℕ
next_u64 n = (n + 1) % 2 ^ 64

-- `safe_strncpy` into an array of MAX_IP_LEN characters.
abbrev pub ip_copy : List ℕ → List ℕ
ip_copy ip = take 15 ip

-- `gossip_protocol_create`, where the allocation succeeds.
unfoldable pub create : ℕ → ℕ → List ℕ → ℕ → ℕ → Option Config → View → Protocol
create my_id my_type my_ip gossip_port data_port config view = record {
  my_id = my_id;
  my_type = my_type;
  my_ip = ip_copy my_ip;
  gossip_port = gossip_port;
  data_port = data_port;
  incarnation = 0;
  sequence_num = 0;
  config = elim config [ none ↦ default_config | some c ↦ c ];
  view = view;
  pending_acks = replicate 64 (record { target_node = 0; ping_sent_ms = 0; active = false });
  stats = record {
    pings_sent = 0;
    acks_received = 0;
    ack_timeouts = 0;
    suspect_count = 0;
    dead_count = 0;
    updates_sent = 0;
    updates_received = 0;
  };
}

-- `add_pending_ack` on the table of pending acknowledgements.
unfoldable pub add_pending_ack : List PendingAck → ℕ → ℕ → Bool × List PendingAck
add_pending_ack acks target_node now = elim (find_slot (λ a. not a.active) acks) [
  | some (i, a) ↦
      (true, set acks i (record { target_node = target_node; ping_sent_ms = now; active = true }))
  | none ↦ (false, acks)
]

-- `remove_pending_ack`
unfoldable pub remove_pending_ack : List PendingAck → ℕ → Bool × List PendingAck
remove_pending_ack acks target_node =
    elim (find_slot (λ a. a.active && (a.target_node == target_node)) acks) [
      | some (i, a) ↦ (true, set acks i (record a { active = false }))
      | none ↦ (false, acks)
    ]

-- The member that an update tells of, with the status given.
abbrev pub member_of : Update → ℕ → ℕ → Member
member_of u status now = record {
  node_id = u.node_id;
  node_type = u.node_type;
  ip_address = ip_copy u.ip_address;
  gossip_port = u.gossip_port;
  data_port = u.data_port;
  status = status;
  last_seen_ms = now;
  incarnation = u.incarnation;
}

abbrev pub update_of : Member → ℕ → Update
update_of m now = record {
  node_id = m.node_id;
  node_type = m.node_type;
  ip_address = ip_copy m.ip_address;
  gossip_port = m.gossip_port;
  data_port = m.data_port;
  status = m.status;
  incarnation = m.incarnation;
  timestamp_ms = now;
}

-- The loops that pack up to `n` members into a message.
unfoldable pub pack : (Member → Bool) → List Member → ℕ → ℕ → List Update
pack keep ms zero now = []
pack keep [] (suc n) now = []
pack keep (m ∷ ms) (suc n) now =
    let rest = pack keep ms (suc n) now in
    let fewer = pack keep ms n now in if keep m then update_of m now ∷ fewer else rest

-- A message of this node with the next sequence number, and the protocol that counted it.
abbrev pub message_from : Protocol → ℕ → List Update → ℕ → Message
message_from p msg_type updates num_updates = record {
  version = 1;
  msg_type = msg_type;
  flags = 0;
  sender_id = p.my_id;
  sender_type = 0;
  sender_gossip_port = 0;
  sender_data_port = 0;
  sequence_num = p.sequence_num;
  num_updates = num_updates;
  updates = updates;
}

abbrev pub counted : Protocol → Protocol
counted p = record p { sequence_num = next_u64 p.sequence_num }

abbrev pub is_peer : ℕ → Member → Bool
is_peer my_id m = not (is_dead m.status) && not (m.node_id == my_id)
