-- ===== src/Gossip/Wire/RoundTrip.antt =====
-- Reading back the gossip messages of src/gossip/protocol/gossip_serialization.c.
use e_roole.Prelude.{
  ℕ, ◌+◌, ◌-◌, ◌*◌, ◌%◌, ◌≤◌, ◌≡◌, refl, ap, subst, List, [], ◌∷◌, ◌++◌, none, length,
  length-append, All, min, le→ltb, arith,
}
use e_roole.Wire.Word.{write_u16, write_u32, write_u64, Decodes-read_u16, Decodes-read_u64}
use e_roole.Wire.Reader.{
  ok, ◌>>=◌, pure, Decodes, Decodes-bind, Decodes-map, Decodes-read_u8, Decodes-checked,
}
use e_roole.Wire.Text.{text_bytes, Decodes-read_text, length-text_bytes}
use e_roole.Gossip.Types.{Update, Message, IsUpdate, IsHeader, cells, max_updates, cells-length}
use e_roole.Gossip.Wire.{
  update_bytes, read_update, message_header, serialize_updates, patched, wrote, serialize,
  read_updates, read_header, with_updates, read_message, deserialize, serialized_size,
}

pub length-update_bytes : (u : Update) → length u.ip_address ≤ 15 → length (update_bytes u) ≡ 40
unfolding update_bytes write_u16 write_u64 write_u32 text_bytes
length-update_bytes u h = omega (
  arith,
  length-text_bytes 16 15 u.ip_address h (omega arith),
  length-append (text_bytes 16 15 u.ip_address) (
      write_u16 u.gossip_port
      ++ (write_u16 u.data_port ++ (write_u64 u.incarnation ++ write_u64 u.timestamp_ms))),
)

pub Decodes-read_update : (u : Update) → IsUpdate u → Decodes read_update u (update_bytes u)
unfolding read_update update_bytes
Decodes-read_update u h =
    let type_byte : u.node_type % 256 ≡ u.node_type = omega (arith, h.node_type) in
    let status_byte : u.status % 256 ≡ u.status = omega (arith, h.status) in
    rw (type_byte, status_byte)
      (Decodes-bind _ (Decodes-read_u16 u.node_id h.node_id) (
        Decodes-bind _ (Decodes-read_u8 u.node_type) (
          Decodes-bind _ (Decodes-read_u8 u.status) (
            Decodes-bind _
              (Decodes-read_text 16 15 u.ip_address h.ip_string h.ip_short (omega arith))
              (Decodes-bind _ (Decodes-read_u16 u.gossip_port h.gossip_port) (
                Decodes-bind _ (Decodes-read_u16 u.data_port h.data_port) (
                  Decodes-bind _ (Decodes-read_u64 u.incarnation h.incarnation)
                    (Decodes-map _ (Decodes-read_u64 u.timestamp_ms h.timestamp_ms)))))))))

unfoldable pub updates_bytes : List Update → List ℕ
updates_bytes [] = []
updates_bytes (u ∷ us) = update_bytes u ++ updates_bytes us

pub length-updates_bytes :
    (us : List Update) → All IsUpdate us → length (updates_bytes us) ≡ length us * 40
unfolding updates_bytes
length-updates_bytes [] h = refl
length-updates_bytes (u ∷ us) h = omega (
  arith,
  length-append (update_bytes u) (updates_bytes us),
  length-update_bytes u h.0.ip_short,
  length-updates_bytes us h.1,
)

-- With room for all the updates, all are written.
pub serialize_updates-updates_bytes :
    (us : List Update) (i room : ℕ)
    → length us * 40 ≤ room
    → serialize_updates us i room ≡ (updates_bytes us, none)
unfolding serialize_updates updates_bytes
serialize_updates-updates_bytes [] i room h = refl
serialize_updates-updates_bytes (u ∷ us) i room h =
    rw
      (
        serialize_updates-updates_bytes us (i + 1) (room - 40) (omega arith),
        le→ltb room 40 (omega arith),
      )
      refl

-- Their bytes are read as many updates, whatever follows them.
pub Decodes-read_updates :
    (us : List Update) → All IsUpdate us → Decodes (read_updates (length us)) us (updates_bytes us)
unfolding read_updates updates_bytes
Decodes-read_updates [] h = record { runs = λ rest. refl }
Decodes-read_updates (u ∷ us) h = record {
  runs = λ rest.
      let body = update_bytes u ++ updates_bytes us in
      let long : 40 ≤ length (body ++ rest) = omega (
        arith,
        length-append body rest,
        length-append (update_bytes u) (updates_bytes us),
        length-update_bytes u h.0.ip_short,
      ) in
      rw (le→ltb (length (body ++ rest)) 40 long) (
        (Decodes-bind (λ v. read_updates (length us) >>= λ vs. pure (v ∷ vs))
            (Decodes-read_update u h.0)
            (Decodes-map (λ vs. u ∷ vs) (Decodes-read_updates us h.1))).runs
          rest);
}

-- What is read of a header: the sender's type and ports are not on the wire.
abbrev pub unsent : Message → List Update → Message
unsent m us = record m {
  sender_type = 0;
  sender_gossip_port = 0;
  sender_data_port = 0;
  updates = us;
}

pub Decodes-read_header :
    (m : Message) → IsHeader m → Decodes read_header (unsent m []) (message_header m)
unfolding read_header message_header
Decodes-read_header m h = rw h.version (
    Decodes-bind _ (Decodes-read_u8 1) (
      Decodes-bind _ (Decodes-read_u8 m.msg_type) (
        Decodes-bind _ (Decodes-read_u16 m.flags h.flags) (
          Decodes-bind _ (Decodes-read_u16 m.sender_id h.sender_id) (
            Decodes-bind _ (Decodes-read_u64 m.sequence_num h.sequence_num) (
              Decodes-bind _ (Decodes-read_u8 m.num_updates)
                (Decodes-map _ (Decodes-read_u8 0))))))))

-- The count that is read stands: no update is missing.
with_updates-all :
    (m : Message) (us : List Update)
    → length us ≡ m.num_updates
    → m.num_updates ≤ max_updates
    → with_updates (unsent m []) us ≡ unsent m us
with_updates-all m us filled few =
    rw (le→ltb (length us) (min m.num_updates max_updates) (omega arith)) refl

pub Decodes-read_message :
    (m : Message) (us : List Update)
    → IsHeader m
    → m.num_updates ≤ max_updates
    → length us ≡ m.num_updates
    → All IsUpdate us
    → Decodes read_message (unsent m us) (message_header m ++ updates_bytes us)
unfolding read_message
Decodes-read_message m us header few filled valid =
    let bytes = message_header m ++ updates_bytes us in
    let bound : length us ≡ min m.num_updates max_updates = omega arith in
    let body : Decodes (read_updates (min m.num_updates max_updates)) us (updates_bytes us) =
      subst (λ n. Decodes (read_updates n) us (updates_bytes us)) bound
        (Decodes-read_updates us valid) in
    subst (λ v. Decodes read_message v bytes) (with_updates-all m us filled few)
      (Decodes-bind _ (Decodes-read_header m header)
        (Decodes-map (with_updates (unsent m [])) body))

pub length-message_header : (m : Message) → length (message_header m) ≡ 16
unfolding message_header write_u16 write_u32 write_u64
length-message_header m = refl

-- A message of version 1 with at most 10 updates, all of whose fields fit, is written into a buffer
-- with room for it in just the number of bytes that gossip_message_serialized_size states, and is
-- read back as the same message, but for the sender's type and ports, which come back as zero.
pub deserialize-serialize :
    (m : Message) (buffer_size : ℕ)
    → IsHeader m
    → m.num_updates ≤ max_updates
    → length m.updates ≡ m.num_updates
    → All IsUpdate m.updates
    → serialized_size m ≤ buffer_size
    → (bytes : List ℕ) × (serialize m buffer_size ≡ wrote bytes)
      × (length bytes ≡ serialized_size m)
      × (deserialize bytes ≡ ok (unsent m m.updates))
unfolding serialize deserialize serialized_size
deserialize-serialize m buffer_size header few filled valid room =
    let us = m.updates in
    let bytes = message_header m ++ updates_bytes us in
    let bound : min m.num_updates max_updates ≡ length us = omega arith in
    let size : length bytes ≡ 16 + m.num_updates * 40 = omega (
      arith,
      length-append (message_header m) (updates_bytes us),
      length-message_header m,
      length-updates_bytes us valid,
    ) in
    let written : serialize_updates (cells (min m.num_updates max_updates) us) 0 (buffer_size - 16)
        ≡ (updates_bytes us, none) =
      rw (bound, cells-length us)
        (serialize_updates-updates_bytes us 0 (buffer_size - 16) (omega arith)) in
    (
      bytes,
      rw (le→ltb buffer_size 16 (omega arith))
          (ap (λ p. patched (message_header m ++ p.0) p.1 buffer_size) written),
      size,
      Decodes-checked 16 (Decodes-read_message m us header few filled valid) (omega arith),
    )
