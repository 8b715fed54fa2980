-- ===== src/Gossip/Swim/Handlers.antt =====
-- src/gossip/protocol/message_handlers.c: what each received message does to the protocol.
use e_roole.Prelude.{
  ℕ, ◌&&◌, ◌||◌, not, Bool, true, false, List, [], ◌∷◌, Option, none, some, length, take, ltb, leb,
  ◌==◌, if◌then◌else◌, min,
}
use e_roole.Cluster.View.{
  Member, View, alive, suspect, dead, is_alive, is_suspect, is_dead, add, update_status, get,
}
use e_roole.Gossip.Types.{
  Update, Message, cells, max_updates, blank_update, msg_ping, msg_ack, msg_suspect, msg_alive,
  msg_dead, msg_join, msg_leave, msg_join_response,
}
use e_roole.Gossip.Swim.{
  Protocol, sends, tells_alive, tells_suspect, tells_dead, Result, and_next, each, next_u64,
  ip_copy, remove_pending_ack, member_of, pack, message_from, counted, is_peer,
}

abbrev pub received : Protocol → Protocol
received p = record p {
  stats = record (p.stats) { updates_received = next_u64 p.stats.updates_received };
}

abbrev pub suspected : Protocol → Protocol
suspected p = record p {
  stats = record (p.stats) { suspect_count = next_u64 p.stats.suspect_count };
}

abbrev pub died : Protocol → Protocol
died p = record p { stats = record (p.stats) { dead_count = next_u64 p.stats.dead_count } }

-- `send_cluster_snapshot`
unfoldable pub send_cluster_snapshot : Protocol → List ℕ → ℕ → ℕ → Result
send_cluster_snapshot p dest_ip dest_port now =
    let us = pack (λ m. not (is_dead m.status)) p.view.members max_updates now in
    (
      counted p,
      sends (message_from p msg_join_response us (length us)) (some dest_ip) dest_port ∷ [],
    )

-- The ACK at the end of `handle_ping`.
unfoldable pub send_ack : Protocol → List ℕ → ℕ → ℕ → Result
send_ack p src_ip src_port now =
    let first = take (min (length p.view.members) max_updates) p.view.members in
    let us = pack (is_peer p.my_id) first max_updates now in
    (counted p, sends (message_from p msg_ack us (length us)) (some src_ip) src_port ∷ [])

-- What `handle_ping` does with a sender that is not in the view.
unfoldable pub greet : Protocol → ℕ → List ℕ → ℕ → ℕ → Result
greet p sender_id src_ip src_port now =
    let update = record blank_update {
      node_id = sender_id;
      node_type = p.my_type;
      ip_address = ip_copy src_ip;
      gossip_port = src_port;
      timestamp_ms = now;
    } in
    (
      record p { view = (add p.view (member_of update alive now) now).1 },
      tells_alive sender_id update ∷ [],
    )

-- The callback for a status that replaced an older one.
abbrev pub announce : Protocol → Member → Update → Result
announce p old u =
    if is_suspect u.status && is_alive old.status
    then (suspected p, tells_suspect u.node_id u.incarnation ∷ [])
    else if is_dead u.status
    then (died p, tells_dead u.node_id ∷ [])
    else if is_alive u.status
    then (p, tells_alive u.node_id u ∷ [])
    else (p, [])

abbrev pub retold : Protocol → Update → ℕ → ℕ → Protocol
retold p u status now = record p {
  view = (update_status p.view u.node_id status u.incarnation now).1;
}

-- A member that is not in the view.
abbrev pub discover : Protocol → Update → ℕ → Result
discover p u now = (
  received (record p { view = (add p.view (member_of u u.status now) now).1 }),
  tells_alive u.node_id u ∷ [],
)

-- One update of a PING.
unfoldable pub ping_update : ℕ → Protocol → Update → Result
ping_update now p u = elim (get p.view u.node_id) [
  | none ↦ discover p u now
  | some old ↦
      if is_dead old.status && (is_alive u.status && ltb old.incarnation u.incarnation)
      then (
        record p { view = (add p.view (member_of u alive now) now).1 },
        tells_alive u.node_id u ∷ [],
      )
      else if ltb old.incarnation u.incarnation
      then announce (received (retold p u u.status now)) old u
      else (p, [])
]

abbrev pub is_known : View → ℕ → Bool
is_known v id = elim (get v id) [ none ↦ false | some m ↦ true ]

-- `handle_ping`, with the updates that its loop reads.
unfoldable pub handle_ping : Protocol → Message → List Update → List ℕ → ℕ → ℕ → Result
unfolding ping_update greet send_cluster_snapshot send_ack
handle_ping p m us src_ip src_port now =
    let known = is_known p.view m.sender_id in
    let greeted = if known then (p, []) else greet p m.sender_id src_ip src_port now in
    let merged = and_next greeted (each (ping_update now) us) in
    let answered =
      and_next merged λ q. if known then (q, []) else send_cluster_snapshot q src_ip src_port now in
    and_next answered λ q. send_ack q src_ip src_port now

-- A suspected sender that answers is alive again, with the same incarnation.
unfoldable pub recover : Protocol → ℕ → ℕ → Protocol
recover p sender_id now = elim (get p.view sender_id) [
  | none ↦ p
  | some old ↦
      if is_suspect old.status
      then record p { view = (update_status p.view sender_id alive old.incarnation now).1 }
      else p
]

-- One update of an ACK.
unfoldable pub ack_update : ℕ → Protocol → Update → Result
ack_update now p u = elim (get p.view u.node_id) [
  | none ↦ discover p u now
  | some old ↦
      if ltb old.incarnation u.incarnation
      then (received (retold p u u.status now), [])
      else (p, [])
]

-- `handle_ack`
unfoldable pub handle_ack : Protocol → Message → List Update → ℕ → Result
unfolding recover ack_update
handle_ack p m us now =
    let acked = record p {
      pending_acks = (remove_pending_ack p.pending_acks m.sender_id).1;
      stats = record (p.stats) { acks_received = next_u64 p.stats.acks_received };
    } in
    each (ack_update now) us (recover acked m.sender_id now)

-- The node's own update in its own messages.
abbrev pub self_update : Protocol → ℕ → Update
self_update p now = record {
  node_id = p.my_id;
  node_type = p.my_type;
  ip_address = ip_copy p.my_ip;
  gossip_port = p.gossip_port;
  data_port = p.data_port;
  status = alive;
  incarnation = p.incarnation;
  timestamp_ms = now;
}

-- The answer to a suspicion of this node.
unfoldable pub refute : Protocol → ℕ → Result
refute p now =
    let q = record p { incarnation = next_u64 p.incarnation } in
    (counted q, sends (message_from q msg_alive (self_update q now ∷ []) 1) none 0 ∷ [])

-- One update of a SUSPECT message.
unfoldable pub suspect_update : ℕ → Protocol → Update → Result
unfolding refute
suspect_update now p u =
    if not (is_suspect u.status)
    then (p, [])
    else if u.node_id == p.my_id
    then refute p now
    else elim (get p.view u.node_id) [
      | none ↦ (p, [])
      | some old ↦
          if leb old.incarnation u.incarnation && is_alive old.status
          then (suspected (retold p u suspect now), tells_suspect u.node_id u.incarnation ∷ [])
          else (p, [])
    ]

-- One update of an ALIVE message.
unfoldable pub alive_update : ℕ → Protocol → Update → Result
alive_update now p u = elim (get p.view u.node_id) [
  | none ↦ (p, [])
  | some old ↦
      if ltb old.incarnation u.incarnation
      then (retold p u alive now, tells_alive u.node_id u ∷ [])
      else (p, [])
]

-- One update of a DEAD message.
unfoldable pub dead_update : ℕ → Protocol → Update → Result
dead_update now p u = elim (get p.view u.node_id) [
  | none ↦ (p, [])
  | some old ↦ (died (retold p u dead now), tells_dead u.node_id ∷ [])
]

-- `handle_suspect`, `handle_alive` and `handle_dead`
unfoldable pub handle_suspect : Protocol → List Update → ℕ → Result
unfolding suspect_update
handle_suspect p us now = each (suspect_update now) us p

unfoldable pub handle_alive : Protocol → List Update → ℕ → Result
unfolding alive_update
handle_alive p us now = each (alive_update now) us p

unfoldable pub handle_dead : Protocol → List Update → ℕ → Result
unfolding dead_update
handle_dead p us now = each (dead_update now) us p

-- The switch of `gossip_protocol_handle_message`, and the types it has a case for.
abbrev pub is_ping : ℕ → Bool
is_ping t = (t == msg_ping) || ((t == msg_join) || (t == msg_leave))

abbrev pub is_handled : ℕ → Bool
is_handled t =
    is_ping t || ((t == msg_ack) || ((t == msg_suspect) || ((t == msg_alive) || (t == msg_dead))))

unfoldable pub dispatch : Protocol → Message → List Update → List ℕ → ℕ → ℕ → Result
unfolding handle_ping handle_ack handle_suspect handle_alive handle_dead
dispatch p m us src_ip src_port now =
    if is_ping m.msg_type
    then handle_ping p m us src_ip src_port now
    else if m.msg_type == msg_ack
    then handle_ack p m us now
    else if m.msg_type == msg_suspect
    then handle_suspect p us now
    else if m.msg_type == msg_alive
    then handle_alive p us now
    else handle_dead p us now

-- `gossip_protocol_handle_message`. Nothing is returned where a loop over `num_updates` would read
-- past the array of updates.
unfoldable pub handle_message : Protocol → Message → List ℕ → ℕ → ℕ → Option Result
unfolding dispatch
handle_message p m src_ip src_port now =
    if (m.sender_id == p.my_id) || not (is_handled m.msg_type)
    then some (p, [])
    else if ltb max_updates m.num_updates
    then none
    else some (dispatch p m (cells m.num_updates m.updates) src_ip src_port now)
