-- ===== src/Gossip/Wire/Truncated.antt =====
-- The early stop of gossip_message_serialize of src/gossip/protocol/gossip_serialization.c: what it
-- writes where the buffer has no room for all the updates.
use e_roole.Prelude.{
  ℕ, zero, suc, ◌+◌, ◌-◌, ◌*◌, ◌/◌, ◌%◌, ◌≤◌, ◌<◌, ◌≡◌, ◌↔◌, refl, ap, ◌∙◌, List, [], ◌∷◌, ◌++◌,
  some, length, length-append, All, set, take, min, le→ltb, lt→ltb, arith,
}
use e_roole.Wire.Word.{write_u16, write_u32, write_u64}
use e_roole.Wire.Reader.{ok, ◌>>=◌, pure, run}
use e_roole.Gossip.Types.{Update, Message, IsUpdate, IsHeader, cells, max_updates, cells-length}
use e_roole.Gossip.Wire.{
  update_bytes, message_header, serialize_updates, patched, wrote, serialize, read_updates,
  read_message, deserialize,
}
use e_roole.Gossip.Wire.RoundTrip.{
  updates_bytes, length-update_bytes, Decodes-read_update, Decodes-read_header, unsent,
  length-message_header,
}

-- With room for `k` updates and no more, the loop writes those and stops.
serialize_updates-take :
    (us : List Update) (i room k : ℕ)
    → k < length us
    → k * 40 ≤ room
    → room < k * 40 + 40
    → serialize_updates us i room ≡ (updates_bytes (take k us), some (i + k))
unfolding serialize_updates updates_bytes
serialize_updates-take [] i room k h a b = absurd (omega arith)
serialize_updates-take (u ∷ us) i room zero h a b =
    let same : i ≡ i + 0 = omega arith in
    rw (lt→ltb room 40 (omega arith)) (ap (λ j. ([], some j)) same)
serialize_updates-take (u ∷ us) i room (suc k) h a b =
    let same : i + 1 + k ≡ i + suc k = omega arith in
    rw
      (
        le→ltb room 40 (omega arith),
        serialize_updates-take us (i + 1) (room - 40) k (omega arith) (omega arith) (omega arith),
      )
      (ap (λ j. (update_bytes u ++ updates_bytes (take k us), some j)) same)

-- The update whose first byte, the high one of its id, is written over.
abbrev pub renamed : ℕ → Update → Update
renamed k u = record u { node_id = k * 256 + u.node_id % 256 }

abbrev pub first_renamed : ℕ → List Update → List Update
first_renamed k [] = []
first_renamed k (u ∷ us) = renamed k u ∷ us

set-update_bytes :
    (k : ℕ) (u : Update) → k < 256 → set (update_bytes u) 0 k ≡ update_bytes (renamed k u)
unfolding update_bytes write_u16
set-update_bytes k u h =
    let low = u.node_id % 256 in
    let hi : ((k * 256 + low) / 256) % 256 ≡ k = omega arith in
    let lo : (k * 256 + low) % 256 ≡ low = omega arith in rw (hi, lo) refl

set-message :
    (m : Message) (k : ℕ) (u : Update) (us : List Update)
    → k < 256
    → set (message_header m ++ updates_bytes (u ∷ us)) 16 k
      ≡ message_header m ++ updates_bytes (renamed k u ∷ us)
unfolding message_header updates_bytes write_u16 write_u32 write_u64 update_bytes
set-message m k u us h =
    ap (λ bytes. message_header m ++ (bytes ++ updates_bytes us)) (set-update_bytes k u h)

-- The reader stops where the updates end.
read_updates-short :
    (us : List Update) (n : ℕ)
    → All IsUpdate us
    → length us ≤ n
    → read_updates n (updates_bytes us) ≡ ok (us, [])
unfolding read_updates updates_bytes
read_updates-short [] zero h l = refl
read_updates-short [] (suc n) h l = refl
read_updates-short (u ∷ us) zero h l = absurd (omega arith)
read_updates-short (u ∷ us) (suc n) h l =
    let bytes = update_bytes u ++ updates_bytes us in
    let long : 40 ≤ length bytes = omega (
      arith,
      length-append (update_bytes u) (updates_bytes us),
      length-update_bytes u h.0.ip_short,
    ) in
    rw
      (
        le→ltb (length bytes) 40 long,
        (Decodes-read_update u h.0).runs (updates_bytes us),
        ◌>>=◌,
        read_updates-short us n h.1 (omega arith),
        ◌>>=◌,
        pure,
      )
      refl

length-take-under : (us : List Update) (k : ℕ) → k ≤ length us → length (take k us) ≡ k
length-take-under us zero h = refl
length-take-under [] (suc k) h = absurd (omega arith)
length-take-under (u ∷ us) (suc k) h = ap suc (length-take-under us k (omega arith))

All-take : (us : List Update) (k : ℕ) → All IsUpdate us → All IsUpdate (take k us)
All-take us zero h = tt
All-take [] (suc k) h = tt
All-take (u ∷ us) (suc k) h = (h.0, All-take us k h.1)

renamed-IsUpdate : (k : ℕ) (u : Update) → k < 256 → IsUpdate u → IsUpdate (renamed k u)
renamed-IsUpdate k u small h = record {
  node_id = omega arith;
  node_type = h.node_type;
  status = h.status;
  ip_string = h.ip_string;
  ip_short = h.ip_short;
  gossip_port = h.gossip_port;
  data_port = h.data_port;
  incarnation = h.incarnation;
  timestamp_ms = h.timestamp_ms;
}

All-first_renamed :
    (k : ℕ) (us : List Update) → k < 256 → All IsUpdate us → All IsUpdate (first_renamed k us)
All-first_renamed k [] small h = tt
All-first_renamed k (u ∷ us) small h = (renamed-IsUpdate k u small h.0, h.1)

set-message_take :
    (m : Message) (k : ℕ) (us : List Update)
    → k < 256
    → 0 < length us
    → set (message_header m ++ updates_bytes us) 16 k
      ≡ message_header m ++ updates_bytes (first_renamed k us)
set-message_take m k [] small h = absurd (omega arith)
set-message_take m k (u ∷ us) small h = set-message m k u us small

length-first_renamed : (k : ℕ) (us : List Update) → length (first_renamed k us) ≡ length us
length-first_renamed k [] = refl
length-first_renamed k (u ∷ us) = refl

deserialize-short :
    (m : Message) (us : List Update)
    → IsHeader m
    → All IsUpdate us
    → length us < min m.num_updates max_updates
    → deserialize (message_header m ++ updates_bytes us)
      ≡ ok (unsent (record m { num_updates = length us }) us)
unfolding deserialize read_message
deserialize-short m us header valid few =
    let bytes = message_header m ++ updates_bytes us in
    let long : 16 ≤ length bytes =
      omega (arith, length-append (message_header m) (updates_bytes us), length-message_header m) in
    rw
      (
        le→ltb (length bytes) 16 long,
        run,
        (Decodes-read_header m header).runs (updates_bytes us),
        ◌>>=◌,
        read_updates-short us (min m.num_updates max_updates) valid (omega arith),
        ◌>>=◌,
        pure,
        lt→ltb (length us) (min m.num_updates max_updates) few,
      )
      refl

first_renamed-take :
    (k : ℕ) (u : Update) (us : List Update)
    → 0 < k
    → first_renamed k (take k (u ∷ us)) ≡ renamed k u ∷ take (k - 1) us
first_renamed-take zero u us h = absurd (omega arith)
first_renamed-take (suc k) u us h = let one : suc k - 1 ≡ k = omega arith in rw one refl

same_high : (k id : ℕ) → (k * 256 + id % 256 ≡ id) ↔ (k ≡ id / 256)
same_high k id = (λ e. omega arith, λ e. omega arith)

-- Where a message has at most 10 updates and the buffer has room for only the first `k` of them, at
-- least one, gossip_message_serialize writes the header and those `k`, but with the high byte of the
-- first one's node id replaced by `k`: what is read back is the message cut to `k` updates, of which
-- the first has the id k * 256 + id % 256, and that is the id written exactly if `k` is its high byte.
pub serialize-truncated :
    (m : Message) (first : Update) (others : List Update) (buffer_size k : ℕ)
    → m.updates ≡ first ∷ others
    → IsHeader m
    → m.num_updates ≤ max_updates
    → length m.updates ≡ m.num_updates
    → All IsUpdate m.updates
    → 0 < k
    → k < m.num_updates
    → 16 + k * 40 ≤ buffer_size
    → buffer_size < 56 + k * 40
    → (bytes : List ℕ) × (serialize m buffer_size ≡ wrote bytes)
      × (deserialize bytes
          ≡ ok (unsent (record m { num_updates = k }) (first_renamed k (take k m.updates))))
      × (first_renamed k (take k m.updates) ≡ renamed k first ∷ take (k - 1) others)
      × (((renamed k first).node_id ≡ first.node_id) ↔ (k ≡ first.node_id / 256))
unfolding serialize
serialize-truncated m first others buffer_size k begins header few filled valid some_room cut low
      high =
    let us = take k m.updates in
    let size : length us ≡ k = length-take-under m.updates k (omega arith) in
    let renamed_size : length (first_renamed k us) ≡ k = length-first_renamed k us ∙ size in
    let bound : min m.num_updates max_updates ≡ length m.updates = omega arith in
    let from_zero : 0 + k ≡ k = omega arith in
    let written : serialize_updates (cells (min m.num_updates max_updates) m.updates) 0
          (buffer_size - 16)
        ≡ (updates_bytes us, some k) =
      rw (bound, cells-length m.updates)
        (serialize_updates-take m.updates 0 (buffer_size - 16) k (omega arith) (omega arith)
            (omega arith)
          ∙ ap (λ j. (updates_bytes us, some j)) from_zero) in
    let read =
      deserialize-short m (first_renamed k us) header
        (All-first_renamed k us (omega arith) (All-take m.updates k valid)) (omega arith) in
    (
      message_header m ++ updates_bytes (first_renamed k us),
      rw (le→ltb buffer_size 16 (omega arith)) (
          ap (λ p. patched (message_header m ++ p.0) p.1 buffer_size) written
          ∙ (rw (lt→ltb 16 buffer_size (omega arith))
              (ap wrote (set-message_take m k us (omega arith) (omega arith))))),
      read ∙ ap (λ n. ok (unsent (record m { num_updates = n }) (first_renamed k us))) renamed_size,
      ap (λ updates. first_renamed k (take k updates)) begins
          ∙ first_renamed-take k first others some_room,
      same_high k first.node_id,
    )
