-- ===== src/Gossip/Wire.antt =====
-- src/gossip/protocol/gossip_serialization.c: the messages. A pointer argument is never NULL.
pub mod RoundTrip
pub mod Safety
pub mod Truncated
use e_roole.Prelude.{
  ℕ, zero, suc, ◌+◌, ◌-◌, ◌*◌, ◌%◌, ◌≡◌, refl, List, [], ◌∷◌, ◌++◌, Option, none, some, length, set,
  ltb, not, ◌==◌, if◌then◌else◌, min,
}
use e_roole.Wire.Word.{write_u16, write_u64, read_u16, read_u64}
use e_roole.Wire.Reader.{Parsed, ok, fail, fault, Reader, ◌>>=◌, pure, read_u8, checked, failing}
use e_roole.Wire.Text.{text_bytes, read_text}
use e_roole.Gossip.Types.{Update, Message, cells, max_updates}

-- `gossip_serialize_member_update`
unfoldable pub update_bytes : Update → List ℕ
update_bytes u =
    write_u16 u.node_id
    ++ ((u.node_type % 256)
        ∷ (u.status % 256)
        ∷ (text_bytes 16 15 u.ip_address
            ++ (write_u16 u.gossip_port
                ++ (write_u16 u.data_port
                    ++ (write_u64 u.incarnation ++ write_u64 u.timestamp_ms)))))

-- `gossip_deserialize_member_update`
unfoldable pub read_update : Reader Update
read_update = do
  node_id ← read_u16
  node_type ← read_u8
  status ← read_u8
  ip_address ← read_text 16 15
  gossip_port ← read_u16
  data_port ← read_u16
  incarnation ← read_u64
  timestamp_ms ← read_u64
  pure (record {
    node_id = node_id;
    node_type = node_type;
    ip_address = ip_address;
    gossip_port = gossip_port;
    data_port = data_port;
    status = status;
    incarnation = incarnation;
    timestamp_ms = timestamp_ms;
  })

unfoldable pub message_header : Message → List ℕ
message_header m =
    m.version
    ∷ m.msg_type
    ∷ (write_u16 m.flags
        ++ (write_u16 m.sender_id ++ (write_u64 m.sequence_num ++ (m.num_updates ∷ 0 ∷ []))))

-- The loop over the updates from index `i`, with `room` bytes left in the buffer: the bytes written,
-- and the index where the loop stops early.
unfoldable pub serialize_updates : List Update → ℕ → ℕ → List ℕ × Option ℕ
serialize_updates [] i room = ([], none)
serialize_updates (u ∷ us) i room =
    let rest = serialize_updates us (i + 1) (room - 40) in
    if ltb room 40 then ([], some i) else (update_bytes u ++ rest.0, rest.1)

-- What `gossip_message_serialize` does: -1, the bytes it counts, or a write outside the buffer.
pub data Serialized : Type 0 where
  refused : Serialized
  wrote : List ℕ → Serialized
  overrun : Serialized

-- `buffer[16] = i`, where the loop stopped at `i` in a buffer of `buffer_size`.
abbrev pub patched : List ℕ → Option ℕ → ℕ → Serialized
patched bytes none buffer_size = wrote bytes
patched bytes (some i) buffer_size = if ltb 16 buffer_size then wrote (set bytes 16 i) else overrun

-- `gossip_message_serialize`
unfoldable pub serialize : Message → ℕ → Serialized
serialize m buffer_size =
    if ltb buffer_size 16
    then refused
    else (let loop =
          serialize_updates (cells (min m.num_updates max_updates) m.updates) 0
            (buffer_size - 16) in
        patched (message_header m ++ loop.0) loop.1 buffer_size)

-- The loop that reads up to `n` updates, while the bytes of one are left.
unfoldable pub read_updates : ℕ → Reader (List Update)
read_updates zero xs = ok ([], xs)
read_updates (suc n) xs =
    let more = (do u ← read_update; us ← read_updates n; pure (u ∷ us)) in
    if ltb (length xs) 40 then ok ([], xs) else more xs

-- The header, whose version is checked before the rest is read.
unfoldable pub read_header : Reader Message
read_header = do
  version ← read_u8
  msg_type ← read_u8
  (if not (version == 1) then failing else (do
    flags ← read_u16
    sender_id ← read_u16
    sequence_num ← read_u64
    num_updates ← read_u8
    _ ← read_u8
    pure (record {
      version = version;
      msg_type = msg_type;
      flags = flags;
      sender_id = sender_id;
      sender_type = 0;
      sender_gossip_port = 0;
      sender_data_port = 0;
      sequence_num = sequence_num;
      num_updates = num_updates;
      updates = [];
    })))

-- The message with the updates read. Where the loop stopped early the count is theirs.
abbrev pub with_updates : Message → List Update → Message
with_updates m us = record m {
  num_updates =
      if ltb (length us) (min m.num_updates max_updates) then length us else m.num_updates;
  updates = us;
}

unfoldable pub read_message : Reader Message
read_message = do
  m ← read_header
  us ← read_updates (min m.num_updates max_updates)
  pure (with_updates m us)

-- `gossip_message_deserialize`
unfoldable pub deserialize : List ℕ → Parsed Message
deserialize buffer = checked 16 read_message buffer

-- `gossip_message_serialized_size`
unfoldable pub serialized_size : Message → ℕ
serialized_size m = 16 + m.num_updates * 40
