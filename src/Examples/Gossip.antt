-- ===== src/Examples/Gossip.antt =====
-- The gossip protocol: two nodes, and their messages.
use e_roole.Prelude.{
  ◌↔◌, ◌≢◌, ◌/◌, ℕ, ◌+◌, ◌≡◌, refl, List, [], ◌∷◌, none, some, arith, ◌≤◌, length,
}
use e_roole.Wire.Reader.{ok}
use e_roole.Wire.Guarded.{Returns}
use e_roole.Cluster.View.{Member, View, alive, suspect, dead, worker, get, get_member}
use e_roole.Cluster.View.Keeps.{Valid}
use e_roole.Gossip.Types.{Update, Message, IsUpdate, IsHeader, msg_suspect}
use e_roole.Gossip.Wire.{serialize, wrote, deserialize, serialized_size}
use e_roole.Gossip.Wire.RoundTrip.{deserialize-serialize, unsent}
use e_roole.Gossip.Wire.Safety.{Counted, deserialize-Returns}
use e_roole.Gossip.Wire.Truncated.{serialize-truncated, first_renamed, renamed}
use e_roole.Gossip.Bootstrap.{Router, BootstrapResponse, serialize_response, deserialize_response}
use e_roole.Gossip.Bootstrap.RoundTrip.{IsRouter, deserialize-serialize_response}
use e_roole.Gossip.Swim.{Protocol, Effect, Result, create, sends}
use e_roole.Gossip.Swim.Handlers.{handle_message, send_ack}
use e_roole.Gossip.Swim.Rounds.{
  check_timeouts, announce_join, announce_leave, add_seed, run_swim_round,
}
use e_roole.Gossip.Swim.Runs.{
  ProtocolRun, begin, next, joins, checks, rounds, KeptOrOwn, ProtocolRun-Kept,
}
use e_roole.Gossip.Swim.Timers.{Checked, check_timeouts-Checked}
use e_roole.Gossip.Swim.Answers.{Refuted, suspected-Refuted, leave-view}
use e_roole.Gossip.Swim.Join.{Joined, add_seed-Joined}

abbrev localhost : List ℕ
localhost = 49 ∷ 46 ∷ 49 ∷ []

abbrev node : ℕ → ℕ → ℕ → Member
node id status incarnation = record {
  node_id = id;
  node_type = worker;
  ip_address = localhost;
  gossip_port = 7000;
  data_port = 7001;
  status = status;
  last_seen_ms = 10;
  incarnation = incarnation;
}

abbrev no_members : View
no_members = record { members = []; capacity = 4 }

abbrev both_members : View
both_members = record { members = node 1 alive 0 ∷ node 2 suspect 0 ∷ []; capacity = 4 }

-- Node `id` of a cluster of the nodes 1 and 2.
abbrev gossip_node : ℕ → View → Protocol
gossip_node id view = create id worker localhost 7000 7001 none view

both_members-Valid : Valid both_members
unfolding get_member
both_members-Valid = ((refl, (refl, tt)), omega arith)

abbrev rumour : ℕ → Update
rumour id = record {
  node_id = id;
  node_type = worker;
  ip_address = localhost;
  gossip_port = 7000;
  data_port = 7001;
  status = suspect;
  incarnation = 0;
  timestamp_ms = 20;
}

rumour-IsUpdate : (id : ℕ) → id ≤ 9999 → IsUpdate (rumour id)
rumour-IsUpdate id h = record {
  node_id = omega arith;
  node_type = omega arith;
  status = omega arith;
  ip_string = (omega arith, (omega arith, (omega arith, tt)));
  ip_short = omega arith;
  gossip_port = omega arith;
  data_port = omega arith;
  incarnation = omega arith;
  timestamp_ms = omega arith;
}

-- Node 2 tells that it suspects node 1, or nodes 300 and 1.
abbrev rumours : ℕ → List Update → Message
rumours n us = record {
  version = 1;
  msg_type = msg_suspect;
  flags = 0;
  sender_id = 2;
  sender_type = worker;
  sender_gossip_port = 0;
  sender_data_port = 0;
  sequence_num = 5;
  num_updates = n;
  updates = us;
}

rumours-IsHeader : (n : ℕ) (us : List Update) → IsHeader (rumours n us)
rumours-IsHeader n us = record {
  version = refl;
  flags = omega arith;
  sender_id = omega arith;
  sequence_num = omega arith;
}

abbrev two_rumours : Message
two_rumours = rumours 2 (rumour 600 ∷ rumour 1 ∷ [])

deserialize-serialize_example :
    (bytes : List ℕ) × (serialize two_rumours 1400 ≡ wrote bytes)
    × (length bytes ≡ serialized_size two_rumours)
    × (deserialize bytes ≡ ok (unsent two_rumours two_rumours.updates))
unfolding serialized_size
deserialize-serialize_example =
    deserialize-serialize two_rumours 1400 (rumours-IsHeader 2 two_rumours.updates) (omega arith)
      refl (rumour-IsUpdate 600 (omega arith), (rumour-IsUpdate 1 (omega arith), tt)) (omega arith)

deserialize-Returns_example : Returns Counted (deserialize (1 ∷ 1 ∷ 0 ∷ []))
deserialize-Returns_example = deserialize-Returns (1 ∷ 1 ∷ 0 ∷ [])

serialize-truncated_example :
    (bytes : List ℕ) × (serialize two_rumours 60 ≡ wrote bytes)
    × (deserialize bytes
        ≡ ok (unsent (record two_rumours { num_updates = 1 }) (first_renamed 1 (rumour 600 ∷ []))))
    × (first_renamed 1 (rumour 600 ∷ []) ≡ renamed 1 (rumour 600) ∷ [])
    × (((renamed 1 (rumour 600)).node_id ≡ (rumour 600).node_id) ↔ (1 ≡ (rumour 600).node_id / 256))
serialize-truncated_example =
    serialize-truncated two_rumours (rumour 600) (rumour 1 ∷ []) 60 1 refl
      (rumours-IsHeader 2 two_rumours.updates) (omega arith) refl
      (rumour-IsUpdate 600 (omega arith), (rumour-IsUpdate 1 (omega arith), tt)) (omega arith)
      (omega arith) (omega arith) (omega arith)

-- Node 1 joins, sends a PING, and later finds that node 2 has been suspected for too long.
abbrev joined : Protocol
joined = announce_join (gossip_node 1 both_members) 20

abbrev after_checks : Protocol
after_checks = (check_timeouts (run_swim_round joined 7 6000).0 6001).0

a_run : ProtocolRun (gossip_node 1 both_members) after_checks
a_run = next (next (next begin (joins 20)) (rounds 7 6000)) (checks 6001)

ProtocolRun-Kept_example :
    KeptOrOwn (gossip_node 1 both_members) after_checks.view (node 2 suspect 0) 2
unfolding create get_member
ProtocolRun-Kept_example =
    ProtocolRun-Kept (gossip_node 1 both_members) after_checks 2 (node 2 suspect 0) a_run refl

check_timeouts-Checked_example :
    (new : Member) × (get (check_timeouts (gossip_node 1 both_members) 6000).0.view 2 ≡ some new)
    × Checked 5000 6000 (node 2 suspect 0) new
unfolding create get_member
check_timeouts-Checked_example =
    check_timeouts-Checked (gossip_node 1 both_members) 6000 2 (node 2 suspect 0) both_members-Valid
      (omega arith) refl

suspected-Refuted_example :
    (p' q' : Protocol) × (answer : Message) × (told : List Effect) × (handle_message
        (gossip_node 1 both_members)
        (rumours 1 (rumour 1 ∷ []))
        localhost
        7000
        30
      ≡ some (p', sends answer none 0 ∷ []))
    × (p'.incarnation ≡ 0 + 1)
    × (handle_message (gossip_node 2 both_members) answer localhost 7000 31 ≡ some (q', told))
    × Refuted q' 1 (0 + 1)
unfolding create get_member
suspected-Refuted_example =
    suspected-Refuted (gossip_node 1 both_members) (gossip_node 2 both_members)
      (rumours 1 (rumour 1 ∷ [])) (rumour 1) (node 1 alive 0) localhost localhost 7000 7000 30 31
      (omega arith) refl refl refl refl refl (omega arith) (omega arith) refl (omega arith)

leave-view_example :
    (left : Message) × ((announce_leave (gossip_node 1 both_members) 40).1 ≡ sends left none 0 ∷ [])
    × (handle_message (gossip_node 2 both_members) left localhost 7000 41
        ≡ some (send_ack (gossip_node 2 both_members) localhost 7000 41))
    × ((send_ack (gossip_node 2 both_members) localhost 7000 41).0.view ≡ both_members)
    × ((new : Member) × (get (send_ack (gossip_node 2 both_members) localhost 7000 41).0.view 1
          ≡ some new)
        × (new.status ≢ dead))
unfolding create get_member
leave-view_example =
    leave-view (gossip_node 1 both_members) (gossip_node 2 both_members) (node 1 alive 0) localhost
      7000 40 41 (omega arith) refl (omega arith) (omega arith)

add_seed-Joined_example :
    (join : Message) × (r : Result) × ((add_seed (gossip_node 1 both_members) localhost 7000 50).1
      ≡ sends join (some localhost) 7000 ∷ [])
    × (handle_message (gossip_node 2 no_members) join localhost 7000 51 ≡ some r)
    × Joined r.0 1 0 worker
unfolding create get_member
add_seed-Joined_example =
    add_seed-Joined (gossip_node 1 both_members) (gossip_node 2 no_members) localhost localhost 7000
      7000 50 51 (omega arith) refl (omega arith)

abbrev router : ℕ → Router
router id = record { node_id = id; gossip_addr = localhost; data_addr = localhost }

abbrev two_routers : BootstrapResponse
two_routers = record { num_routers = 2; routers = router 300 ∷ router 7 ∷ [] }

router-IsRouter : (id : ℕ) → id ≤ 9999 → IsRouter (router id)
router-IsRouter id h = record {
  node_id = omega arith;
  gossip_string = (omega arith, (omega arith, (omega arith, tt)));
  gossip_short = omega arith;
  data_string = (omega arith, (omega arith, (omega arith, tt)));
  data_short = omega arith;
}

-- The buffer has room for one of two routers.
deserialize-serialize_response_example :
    (bytes : List ℕ) × (serialize_response two_routers 200 ≡ some bytes)
    × (length bytes ≡ 131)
    × (deserialize_response bytes ≡ ok (record { num_routers = 1; routers = router 300 ∷ [] }))
deserialize-serialize_response_example =
    deserialize-serialize_response two_routers 200 (omega arith) (omega arith) refl
      (router-IsRouter 300 (omega arith), (router-IsRouter 7 (omega arith), tt))
