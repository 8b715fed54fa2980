-- ===== src/Gossip/Swim/Rounds.antt =====
-- src/gossip/protocol/swim_state.c: what the protocol does by itself. The number `roll` is what
-- rand() returns.
use e_roole.Prelude.{
  ℕ, zero, suc, ◌+◌, ◌-◌, ◌%◌, ◌^◌, ◌&&◌, Bool, false, List, [], ◌∷◌, ◌++◌, none, some, length,
  get_elem?, ltb, if◌then◌else◌,
}
use e_roole.Cluster.View.{
  Member, alive, suspect, dead, is_alive, is_suspect, add, update_status, get,
}
use e_roole.Gossip.Types.{blank_update, msg_ping, msg_join, msg_leave}
use e_roole.Gossip.Swim.{
  Protocol, PendingAck, sends, tells_suspect, tells_dead, Result, and_next, next_u64, ip_copy,
  add_pending_ack, member_of, pack, message_from, counted, is_peer,
}
use e_roole.Gossip.Swim.Handlers.{suspected, died, self_update}

-- The ids of the members that a PING may go to.
unfoldable pub peer_list : ℕ → List Member → List ℕ
peer_list my_id [] = []
peer_list my_id (m ∷ ms) =
    let rest = peer_list my_id ms in if is_peer my_id m then m.node_id ∷ rest else rest

-- The PING to the member chosen.
unfoldable pub send_ping : Protocol → Member → ℕ → Result
send_ping p target now =
    let us = self_update p now ∷ pack (is_peer p.my_id) p.view.members 9 now in
    let acks = (add_pending_ack p.pending_acks target.node_id now).1 in
    (
      record (counted p) {
        pending_acks = acks;
        stats = record (p.stats) { pings_sent = next_u64 p.stats.pings_sent };
      },
      sends (message_from p msg_ping us (length us)) (some (ip_copy target.ip_address))
            target.gossip_port
          ∷ [],
    )

-- `gossip_protocol_run_swim_round`
unfoldable pub run_swim_round : Protocol → ℕ → ℕ → Result
unfolding send_ping
run_swim_round p roll now =
    let peers = peer_list p.my_id p.view.members in
    elim (get_elem? peers (roll % length peers)) [
      | none ↦ (p, [])
      | some target ↦ elim (get p.view target) [ none ↦ (p, []) | some m ↦ send_ping p m now ]
    ]

-- The unsigned difference of two times.
abbrev pub elapsed : ℕ → ℕ → ℕ
elapsed now since = (now + (2 ^ 64 - since)) % 2 ^ 64

-- A member that is told to have a status, with the incarnation that the view knows.
abbrev pub set_status : Protocol → ℕ → ℕ → ℕ → ℕ → Protocol
set_status p id status incarnation now = record p {
  view = (update_status p.view id status incarnation now).1;
}

abbrev pub timed_out : Protocol → Protocol
timed_out p = record p { stats = record (p.stats) { ack_timeouts = next_u64 p.stats.ack_timeouts } }

-- A node that did not answer in time.
unfoldable pub ack_timeout : Protocol → ℕ → ℕ → Result
ack_timeout p node now = elim (get p.view node) [
  | none ↦ (timed_out p, [])
  | some m ↦
      if is_alive m.status
      then (
        suspected (set_status (timed_out p) node suspect m.incarnation now),
        tells_suspect node m.incarnation ∷ [],
      )
      else (timed_out p, [])
]

-- The loop over the pending acknowledgements: what is left of the table, and the result.
unfoldable pub check_acks : List PendingAck → Protocol → ℕ → List PendingAck × Result
unfolding ack_timeout
check_acks [] p now = ([], (p, []))
check_acks (a ∷ rest) p now =
    let late = a.active && ltb p.config.ack_timeout_ms (elapsed now a.ping_sent_ms) in
    let r = if late then ack_timeout p a.target_node now else (p, []) in
    let cell = if late then record a { active = false } else a in
    let s = check_acks rest r.0 now in (cell ∷ s.0, (s.1.0, r.1 ++ s.1.1))

abbrev pub is_expired : Protocol → Member → ℕ → Bool
is_expired p m now =
    is_suspect m.status && ltb p.config.dead_timeout_ms (elapsed now m.last_seen_ms)

-- The member at index `i`, which dies if it has been suspected for too long.
unfoldable pub check_member : ℕ → Protocol → ℕ → Result
check_member i p now = elim (get_elem? p.view.members i) [
  | none ↦ (p, [])
  | some m ↦
      if is_expired p m now
      then (died (set_status p m.node_id dead m.incarnation now), tells_dead m.node_id ∷ [])
      else (p, [])
]

-- The loop over the `n` members from index `i`, each read from the view as it is by then.
unfoldable pub check_suspects : ℕ → ℕ → Protocol → ℕ → Result
check_suspects zero i p now = (p, [])
check_suspects (suc n) i p now = and_next (check_member i p now) λ q. check_suspects n (i + 1) q now

-- `gossip_protocol_check_timeouts`
unfoldable pub check_timeouts : Protocol → ℕ → Result
check_timeouts p now =
    let s = check_acks p.pending_acks p now in
    and_next (record (s.1.0) { pending_acks = s.0 }, s.1.1)
      λ q. check_suspects (length q.view.members) 0 q now

-- `gossip_protocol_announce_join`
unfoldable pub announce_join : Protocol → ℕ → Protocol
announce_join p now = record p {
  view = (add p.view (member_of (self_update p now) alive now) now).1;
}

-- `gossip_protocol_announce_leave`
unfoldable pub announce_leave : Protocol → ℕ → Result
announce_leave p now =
    let u = record blank_update {
      node_id = p.my_id;
      status = dead;
      incarnation = p.incarnation;
      timestamp_ms = now;
    } in
    (counted p, sends (message_from p msg_leave (u ∷ []) 1) none 0 ∷ [])

-- `gossip_protocol_add_seed`
unfoldable pub add_seed : Protocol → List ℕ → ℕ → ℕ → Result
add_seed p seed_ip seed_port now = (
  counted p,
  sends (message_from p msg_join (self_update p now ∷ []) 1) (some seed_ip) seed_port ∷ [],
)
