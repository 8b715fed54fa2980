-- ===== src/Examples/Calls.antt =====
-- The RPC server and client, and the peers of a raft node.
use e_roole.Prelude.{
  ℕ, ◌+◌, ◌≡◌, ◌&&◌, ◌||◌, not, refl, true, false, List, [], ◌∷◌, none, some, length, take, drop,
  map, if◌then◌else◌, arith,
}
use e_roole.Wire.Word.{write_u16, write_u32}
use e_roole.Slots.{find_slot}
use e_roole.Cluster.View.{Member, View, alive, suspect, worker}
use e_roole.Raft.Peers.{PeerTable}
use e_roole.Rpc.Frame.{header_bytes, pack_message}
use e_roole.Rpc.Registry.{Registry, lookup}
use e_roole.Rpc.Server.{Calls, Server, waiting, overrun, receive_all}
use e_roole.Rpc.Server.Stream.{joined}
use e_roole.Rpc.Server.Frames.{Request, Fits, request_bytes, serve_all, receive_all-serve_all}
use e_roole.Rpc.Server.Connections.{
  Listener, create, close_connection, accept_connection, begin, next, accepts, closes,
}
use e_roole.Rpc.Server.Count.{ServerReach-IsCounted}
use e_roole.Rpc.Server.Active.{IsCounted}
use e_roole.Rpc.Client.{Client, Arrival, call, counted, request_message}
use e_roole.Rpc.Client.Receive.{Pieces}
use e_roole.Rpc.Client.Call.{answer_of, call-receive_all}
use e_roole.Node.PeerSync.{contains, current_peers, sync_peers}
use e_roole.Node.PeerSync.Follows.{reaches, sync_peers-in_table}
use e_roole.Node.PeerSync.Peered.{IsPeered, in_table}
use e_roole.Examples.Data.{two_peers}

-- The handler counts its calls in the program's state, and echoes the payload under status 7.
abbrev echo : Calls ℕ
echo = record {
  invoke = λ handler user_context payload s. (7, payload, s + 1);
  accepts = λ message. length message;
}

abbrev one_handler : Registry
one_handler = record {
  handlers = record { func_id = 64; handler = 500; user_context = 9; active = true } ∷ [];
  count = 1;
}

abbrev server : Server ℕ
server = record {
  registry = one_handler;
  buffer_size = 100;
  requests_received = 0;
  requests_processed = 0;
  requests_failed = 0;
  bytes_received = 0;
  bytes_sent = 0;
  program = 3;
  sent = [];
}

abbrev ask : ℕ → Request
ask id = record { node_id = 2; request_id = id; func_id = 64; payload = 5 ∷ 6 ∷ [] }

ask-Fits : (id : ℕ) → id ≡ 1 → Fits 100 (ask id)
ask-Fits id h = record {
  request_id = omega arith;
  node_id = omega arith;
  room = omega arith;
  small = omega arith;
}

-- Two requests, cut within the first and sent on as one piece.
abbrev two_requests : List Request
two_requests = ask 1 ∷ ask 1 ∷ []

abbrev stream : List ℕ
stream = joined (map request_bytes two_requests)

receive_all-serve_all_example :
    receive_all echo (waiting server []) (take 5 stream ∷ drop 5 stream ∷ [])
    ≡ (elim (serve_all echo server two_requests) [ none ↦ overrun | some t ↦ waiting t [] ])
unfolding pack_message header_bytes write_u32 write_u16
receive_all-serve_all_example =
    receive_all-serve_all echo server two_requests (take 5 stream ∷ drop 5 stream ∷ [])
      (ask-Fits 1 refl, (ask-Fits 1 refl, tt)) refl

abbrev listening : Listener ℕ
listening = record {
  server = server;
  connections =
      record { fd = 0; rx = []; last_activity_ms = 0; active = false }
      ∷ record { fd = 0; rx = []; last_activity_ms = 0; active = false }
      ∷ [];
  active_connections = 0;
}

abbrev accepted : Listener ℕ
accepted = accept_connection listening (some 8) true true true 50

abbrev left : Listener ℕ
left =
    close_connection accepted 0 (record { fd = 8; rx = []; last_activity_ms = 50; active = true })

ServerReach-IsCounted_example : IsCounted 100 2 left
unfolding create accept_connection find_slot
ServerReach-IsCounted_example =
    ServerReach-IsCounted {size = 100} {max = 2} echo one_handler 3 listening left (omega arith)
      (omega arith) refl
      (next (next begin (accepts (some 8) true true true 50)) (closes 0 _ refl refl))

abbrev client : Client
client = record { connected = true; next_request_id = 1; local_node_id = 2; buffer_size = 100 }

abbrev asked : List ℕ
asked = (request_message client 64 (5 ∷ 6 ∷ [])).1

call-receive_all_example :
    (t : Server ℕ) × (sent : List ℕ) × (receive_all echo
        (waiting server [])
        (take 5 asked ∷ drop 5 asked ∷ [])
      ≡ waiting t [])
    × (t.program ≡ 4)
    × (t.sent ≡ sent ∷ [])
    × ((socket : List Arrival)
        → Pieces socket sent
        → call client 64 (5 ∷ 6 ∷ []) (request_message client 64 (5 ∷ 6 ∷ [])).0 true socket
          ≡ (counted client, some asked, answer_of 7 (5 ∷ 6 ∷ [])))
unfolding pack_message header_bytes write_u32 write_u16 lookup find_slot
call-receive_all_example =
    call-receive_all echo server client 64 (5 ∷ 6 ∷ []) 500 9 7 (5 ∷ 6 ∷ []) 4 refl refl
      (λ h. absurd (omega arith)) refl (omega arith) (ask-Fits 1 refl) (omega arith) (omega arith)
      (take 5 asked ∷ drop 5 asked ∷ []) refl

abbrev seen : ℕ → ℕ → Member
seen id status = record {
  node_id = id;
  node_type = worker;
  ip_address = [];
  gossip_port = 7000;
  data_port = 7001;
  status = status;
  last_seen_ms = 10;
  incarnation = 0;
}

-- Node 3 is suspected, and the nodes 4 and 5 are new, of which 5 has no data port.
abbrev seen_members : View
seen_members = record {
  members =
      seen 1 alive
      ∷ seen 2 alive
      ∷ seen 3 suspect
      ∷ seen 4 alive
      ∷ record (seen 5 alive) { data_port = 0 }
      ∷ [];
  capacity = 8;
}

abbrev synced : List ℕ × PeerTable
synced = sync_peers (λ m. some m.data_port) 9 1 seen_members (2 ∷ 3 ∷ []) two_peers

sync_peers-in_table_example :
    (synced.0 ≡ current_peers 1 seen_members.members)
    × IsPeered synced.1
    × ((k : ℕ)
        → in_table k synced.1 ≡ (
            if contains k synced.0
            then in_table k two_peers
              || (not (contains k (2 ∷ 3 ∷ []))
                  && reaches (λ m. some m.data_port) seen_members.members k)
            else in_table k two_peers && not (contains k (2 ∷ 3 ∷ []))))
unfolding contains current_peers
sync_peers-in_table_example =
    sync_peers-in_table (λ m. some m.data_port) 9 1 seen_members (2 ∷ 3 ∷ []) two_peers
      (record { table = (omega arith, refl, refl, refl, refl); distinct = (refl, (refl, tt)) })
      (omega arith)
