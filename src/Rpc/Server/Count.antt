-- ===== src/Rpc/Server/Count.antt =====
-- What holds of the connections of src/rpc/server/rpc_server.c over any run.
use e_roole.Prelude.{
  ℕ, ◌+◌, ◌-◌, ◌%◌, ◌^◌, ◌≤◌, ◌<◌, ◌≡◌, inl, inr, refl, sym, ap, subst, ◌∙◌, ◌||◌, ◌&&◌, not, Bool,
  false, [], ◌++◌, Option, none, some, length, length-set, length-replicate, set, get_elem?,
  get_elem?-replicate, replicate, ◌==◌, if◌then◌else◌, arith, Bool-cases,
}
use e_roole.Slots.{Found, Found-find_slot, Found-sat, Found-get_elem?, find_slot-cases}
use e_roole.Rpc.Frame.{header_size}
use e_roole.Rpc.Registry.{Registry}
use e_roole.Rpc.Server.{Calls, plus_u64, Processed, waiting, closing, overrun, process_buffer}
use e_roole.Rpc.Server.Room.{Roomy, process_buffer-Roomy}
use e_roole.Rpc.Server.Connections.{
  Connection, Listener, is_unused, create, close_connection, accept_connection, with_buffer,
  handle_connection_data, ServerStep, accepts, closes, receives, ServerReach, begin, next,
}
use e_roole.Rpc.Server.Active.{
  one_if, count_active-set, count_active-le, count_active-replicate, plus_if, IsCounted,
  IsCounted-set,
}

module _ {S : Type 0} {size max : ℕ} where
  close_connection-IsCounted :
      (w : Listener S) (i : ℕ) (c d : Connection)
      → max < 2 ^ 64
      → IsCounted size max w
      → get_elem? w.connections i ≡ some c
      → c.active ≡ d.active
      → IsCounted size max (close_connection w i d)
  unfolding close_connection
  close_connection-IsCounted w i c d small h g same = elim (Bool-cases d.active) [
    | inr off ↦ rw off h
    | inl on ↦
        let v = record d { rx = []; active = false } in
        let n = (w.active_connections + (2 ^ 64 - 1)) % 2 ^ 64 in
        let used : one_if c.active ≡ 1 = ap one_if (same ∙ on) in
        let count : n + one_if c.active ≡ w.active_connections + one_if v.active = omega (
          arith,
          h.counted,
          h.cells,
          count_active-set w.connections i c v g,
          count_active-le w.connections,
        ) in
        rw on (IsCounted-set w i n c v w.server h g count h.buffer (λ off. cc))
  ]

  accept_connection-IsCounted :
      (w : Listener S) (client : Option ℕ) (set_up channel watched : Bool) (now : ℕ)
      → max < 2 ^ 64
      → 0 < size
      → IsCounted size max w
      → IsCounted size max (accept_connection w client set_up channel watched now)
  unfolding accept_connection
  accept_connection-IsCounted w none set_up channel watched now small some_room h = h
  accept_connection-IsCounted w (some fd) set_up channel watched now small some_room h =
      elim (find_slot-cases is_unused w.connections) [
        | inl full ↦ rw (full, accept_connection) h
        | inr (i, c, f) ↦ elim (Bool-cases (not (set_up && channel))) [
          | inl failed ↦ rw (Found-find_slot f, accept_connection, failed) h
          | inr fine ↦ rw (Found-find_slot f, accept_connection, fine) (taken i c f)
        ]
      ]
    where
      taken :
          (i : ℕ) (c : Connection)
          → Found is_unused w.connections i c
          → IsCounted size max (record w {
            connections =
                set w.connections i
                  (record { fd = fd; rx = []; last_activity_ms = now; active = watched });
            active_connections =
                if watched then plus_u64 w.active_connections 1 else w.active_connections;
          })
      taken i c f =
          let v : Connection = record {
            fd = fd;
            rx = [];
            last_activity_ms = now;
            active = watched;
          } in
          let free = Found-sat f in
          let idle : one_if c.active ≡ 0 = ground arith in
          let count = count_active-set w.connections i c v (Found-get_elem? f) in
          let most = count_active-le (set w.connections i v) in
          let cells = length-set w.connections i v in
          let counter : (if watched then plus_u64 w.active_connections 1 else w.active_connections)
                + one_if c.active
              ≡ w.active_connections + one_if watched =
            omega (
              arith,
              plus_if watched w.active_connections max (omega (arith, h.counted, h.cells)) small,
            ) in
          IsCounted-set w i
            (if watched then plus_u64 w.active_connections 1 else w.active_connections) c v w.server
            h (Found-get_elem? f) counter h.buffer (λ on. some_room)

module _ {S : Type 0} {size max : ℕ} (calls : Calls S) where
  with_buffer-IsCounted :
      (w w' : Listener S) (i : ℕ) (c d : Connection) (p : Processed S)
      → max < 2 ^ 64
      → IsCounted size max w
      → get_elem? w.connections i ≡ some c
      → c.active ≡ d.active
      → Roomy calls size p
      → with_buffer calls w i d p ≡ some w'
      → IsCounted size max w'
  unfolding with_buffer
  with_buffer-IsCounted w w' i c d (waiting t rx) small h g same (buffer, room) e =
      let v = record d { rx = rx } in
      let count : w.active_connections + one_if c.active ≡ w.active_connections + one_if v.active =
        ap (λ b. w.active_connections + one_if b) same in
      let after : IsCounted size max
          (record w { server = t; connections = set w.connections i v }) =
        IsCounted-set w i w.active_connections c v t h g count buffer (λ on. room) in
      subst (IsCounted size max) (cc) after
  with_buffer-IsCounted w w' i c d (closing t) small h g same buffer e =
      let u = record w { server = t } in
      let k : IsCounted size max u = record {
        counted = h.counted;
        cells = h.cells;
        buffer = buffer;
        room = h.room;
      } in
      subst (IsCounted size max) (cc) (close_connection-IsCounted u i c d small k g same)
  with_buffer-IsCounted w w' i c d overrun small h g same r e = absurd cc

  ServerStep-IsCounted :
      {w w' : Listener S}
      → header_size ≤ size
      → max < 2 ^ 64
      → ServerStep calls w w'
      → IsCounted size max w
      → IsCounted size max w'
  unfolding handle_connection_data
  ServerStep-IsCounted {w} big small (accepts client set_up channel watched now) h =
      accept_connection-IsCounted w client set_up channel watched now small (omega arith) h
  ServerStep-IsCounted {w} big small (closes i c g on) h =
      close_connection-IsCounted w i c c small h g refl
  ServerStep-IsCounted {w} {w'} big small (receives i c b now g on some_bytes fits e) h =
      let s = record (w.server) { bytes_received = plus_u64 w.server.bytes_received (length b) } in
      let same = h.buffer in
      let roomy =
        subst (λ n. Roomy calls n (process_buffer calls s (c.rx ++ b))) same
          (process_buffer-Roomy calls s (c.rx ++ b) (omega arith)) in
      with_buffer-IsCounted w w' i c (record c { last_activity_ms = now })
        (process_buffer calls s (c.rx ++ b)) small h g refl roomy e

  reach-IsCounted :
      {w w' : Listener S}
      → header_size ≤ size
      → max < 2 ^ 64
      → IsCounted size max w
      → ServerReach calls w w'
      → IsCounted size max w'
  reach-IsCounted big small h begin = h
  reach-IsCounted big small h (next r step) =
      ServerStep-IsCounted big small step (reach-IsCounted big small h r)

  -- Over any run of a server whose buffers hold at least a header, active_connections is the number
  -- of connections in use, and each of them has room for at least one byte whenever its next bytes
  -- are received; the number of connections is below 2 ^ 64.
  pub ServerReach-IsCounted :
      (registry : Registry) (program : S) (w w' : Listener S)
      → header_size ≤ size
      → max < 2 ^ 64
      → create registry max size program ≡ some w
      → ServerReach calls w w'
      → IsCounted size max w'
  unfolding create
  ServerReach-IsCounted registry program w w' big small made r =
      elim (Bool-cases ((max == 0) || (size == 0))) [
        | inl bad ↦ absurd (let m = rw (bad, create) at made in cc)
        | inr good ↦
            reach-IsCounted big small
              (subst (IsCounted size max) (let m = rw (good, create) at made in cc) fresh) r
      ]
    where
      unused : Connection
      unused = record { fd = 0; rx = []; last_activity_ms = 0; active = false }

      fresh : IsCounted size max (record {
        server = record {
          registry = registry;
          buffer_size = size;
          requests_received = 0;
          requests_processed = 0;
          requests_failed = 0;
          bytes_received = 0;
          bytes_sent = 0;
          program = program;
          sent = [];
        };
        connections = replicate max unused;
        active_connections = 0;
      })
      fresh = record {
        counted = sym (count_active-replicate max unused refl);
        cells = length-replicate max unused;
        buffer = refl;
        room = λ i c g on.
            absurd (let off = get_elem?-replicate max i unused c g in let h = rw off at on in cc);
      }
