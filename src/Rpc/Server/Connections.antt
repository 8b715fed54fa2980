-- ===== src/Rpc/Server/Connections.antt =====
-- src/rpc/server/rpc_server.c: connections. The fields of the channel that are read are those of the
-- connection here: the bytes in its receive buffer. Events come for connections in use, since a
-- closed one is taken out of epoll and a round of epoll has one event for each.
use e_roole.Prelude.{
  ℕ, ◌+◌, ◌-◌, ◌%◌, ◌^◌, ◌≤◌, ◌<◌, ◌≡◌, ◌&&◌, not, Bool, true, false, List, [], ◌++◌, Option, none,
  some, length, set, get_elem?, replicate, ◌==◌, ◌||◌, if◌then◌else◌,
}
use e_roole.Slots.{find_slot}
use e_roole.Rpc.Registry.{Registry}
use e_roole.Rpc.Server.{
  Calls, Server, plus_u64, Processed, waiting, closing, overrun, process_buffer,
}

pub record Connection : Type 0 where
  pub fd : ℕ
  pub rx : List ℕ
  pub last_activity_ms : ℕ
  pub active : Bool

-- The rest of `struct rpc_server`.
pub record Listener (S : Type 0) : Type 0 where
  pub server : Server S
  pub connections : List Connection
  pub active_connections : ℕ

abbrev pub is_unused : Connection → Bool
is_unused c = not c.active

-- `rpc_server_create` where its calls of the system succeed, with the program's state.
unfoldable pub create : {S : Type 0} → Registry → ℕ → ℕ → S → Option (Listener S)
create registry max_connections buffer_size program =
    if (max_connections == 0) || (buffer_size == 0)
    then none
    else some (record {
      server = record {
        registry = registry;
        buffer_size = buffer_size;
        requests_received = 0;
        requests_processed = 0;
        requests_failed = 0;
        bytes_received = 0;
        bytes_sent = 0;
        program = program;
        sent = [];
      };
      connections =
          replicate max_connections
            (record { fd = 0; rx = []; last_activity_ms = 0; active = false });
      active_connections = 0;
    })

module _ {S : Type 0} where
  -- `close_connection` of the connection at an index.
  unfoldable pub close_connection : Listener S → ℕ → Connection → Listener S
  close_connection w i c =
      if c.active
      then record w {
        connections = set w.connections i (record c { rx = []; active = false });
        active_connections = (w.active_connections + (2 ^ 64 - 1)) % 2 ^ 64;
      }
      else w

  -- `accept_connection`, with the socket that accept returns, whether it could be set up, whether
  -- its channel could be made and whether epoll took it.
  unfoldable pub accept_connection : Listener S → Option ℕ → Bool → Bool → Bool → ℕ → Listener S
  accept_connection w none set_up channel watched now = w
  accept_connection w (some client_fd) set_up channel watched now =
      elim (find_slot is_unused w.connections) [
        | none ↦ w
        | some (i, c) ↦ if not (set_up && channel) then w else record w {
          connections =
              set w.connections i
                (record { fd = client_fd; rx = []; last_activity_ms = now; active = watched });
          active_connections =
              if watched then plus_u64 w.active_connections 1 else w.active_connections;
        }
      ]

module _ {S : Type 0} (calls : Calls S) where
  -- What is made of the buffer of the connection at an index.
  unfoldable pub with_buffer : Listener S → ℕ → Connection → Processed S → Option (Listener S)
  with_buffer w i c (waiting t rx) =
      some (record w { server = t; connections = set w.connections i (record c { rx = rx }) })
  with_buffer w i c (closing t) = some (close_connection (record w { server = t }) i c)
  with_buffer w i c overrun = none

  -- `handle_connection_data` where recv returns the bytes `b`, at least one and at most as many as
  -- there is room for; `none` is a write past the end of a buffer.
  unfoldable pub handle_connection_data :
      Listener S → ℕ → Connection → List ℕ → ℕ → Option (Listener S)
  unfolding with_buffer
  handle_connection_data w i c b now =
      let s = record (w.server) { bytes_received = plus_u64 w.server.bytes_received (length b) } in
      with_buffer w i (record c { last_activity_ms = now }) (process_buffer calls s (c.rx ++ b))

  -- The events that `rpc_server_run` handles. Where recv returns nothing, whatever the reason, and
  -- where epoll tells of an error or a hangup, the connection is closed.
  pub data ServerStep (w : Listener S) : Listener S → Type 0 where
    accepts :
        (client : Option ℕ) (set_up channel watched : Bool) (now : ℕ)
        → ServerStep w (accept_connection w client set_up channel watched now)
    closes :
        (i : ℕ) (c : Connection)
        → get_elem? w.connections i ≡ some c
        → c.active ≡ true
        → ServerStep w (close_connection w i c)
    receives :
        (i : ℕ) (c : Connection) (b : List ℕ) (now : ℕ) {w' : Listener S}
        → get_elem? w.connections i ≡ some c
        → c.active ≡ true
        → 0 < length b
        → length c.rx + length b ≤ w.server.buffer_size
        → handle_connection_data w i c b now ≡ some w'
        → ServerStep w w'

  pub data ServerReach (w : Listener S) : Listener S → Type 0 where
    begin : ServerReach w w
    next : {u v : Listener S} → ServerReach w u → ServerStep u v → ServerReach w v
