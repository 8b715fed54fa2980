-- ===== src/Raft/Datastore/Command.antt =====
-- The commands of raft_datastore.c as bytes: [cmd_type:1][key_len:2][key] and, for SET,
-- [value_len:4][value].
use e_roole.Prelude.{
  ℕ, ◌+◌, ◌%◌, ◌^◌, ◌≤◌, ◌<◌, ◌≡◌, ◌≢◌, refl, ap, ◌∙◌, ◌||◌, List, [], ◌∷◌, ◌++◌, append-nil,
  Option, none, some, length, length-append, ltb, leb, ◌==◌, if◌then◌else◌, arith, le→ltb, lt→leb,
  Bool-cases, inl, inr,
}
use e_roole.Wire.Word.{
  write_u16, write_u32, read_u16, read_u32, Decodes-read_u16, Decodes-read_u32, Takes-read_u16,
  Takes-read_u32,
}
use e_roole.Wire.Reader.{
  Parsed, ok, fault, Reader, ◌>>=◌, pure, read_u8, read_bytes, checked, failing, Decodes,
  Decodes-bind, Decodes-map, Decodes-pure, Decodes-read_u8, Decodes-read_bytes, Takes-read_u8,
  Takes-read_bytes, Decodes-checked,
}
use e_roole.Wire.Text.{c_string, IsString, c_string_lem}
use e_roole.Wire.Guarded.{
  Returns, Returns-ne-fault, checked-Returns, Guarded, Guarded-bind, Guarded-pure, Guarded-test,
  Guarded-test_bind, Guarded-map, Guarded-last,
}

pub data Command : Type 0 where
  set_command : (key value : List ℕ) → Command
  unset_command : (key : List ℕ) → Command

unfoldable pub serialize_set : List ℕ → List ℕ → ℕ → Option (List ℕ)
serialize_set key value buffer_size =
    let key_len = length key in
    let value_len = length value in
    if ltb buffer_size (1 + 2 + key_len + 4 + value_len) || leb 256 key_len
    then none
    else some
        (1 ∷ (write_u16 (key_len % 2 ^ 16) ++ (key ++ (write_u32 (value_len % 2 ^ 32) ++ value))))

unfoldable pub serialize_unset : List ℕ → ℕ → Option (List ℕ)
serialize_unset key buffer_size =
    let key_len = length key in
    if ltb buffer_size (1 + 2 + key_len) || leb 256 key_len
    then none
    else some (2 ∷ (write_u16 (key_len % 2 ^ 16) ++ key))

-- The value of a SET, whose length stands at `offset` of the `len` bytes.
unfoldable pub read_value : ℕ → ℕ → Reader (List ℕ)
read_value len offset = if ltb len (offset + 4) then failing else do
  value_len ← read_u32
  (if ltb len (offset + 4 + value_len) || ltb (2 ^ 20) value_len
      then failing
      else read_bytes value_len)

-- What follows the key.
unfoldable pub read_body : ℕ → ℕ → ℕ → List ℕ → Reader Command
unfolding read_value
read_body len cmd_type offset key =
    if cmd_type == 1
    then (do value ← read_value len offset; pure (set_command key value))
    else if cmd_type == 2
    then pure (unset_command key)
    else failing

unfoldable pub read_key : ℕ → ℕ → Reader (List ℕ)
read_key len key_len =
    if ltb len (3 + key_len) || leb 256 key_len then failing else read_bytes key_len

-- The part of raft_cmd_deserialize_and_execute that reads the command.
unfoldable pub deserialize_command : List ℕ → Parsed Command
unfolding read_key read_body
deserialize_command buffer =
    let len = length buffer in
    checked 3
      (do
        cmd_type ← read_u8
        key_len ← read_u16
        key ← read_key len key_len
        read_body len cmd_type (3 + key_len) (c_string key))
      buffer

Decodes-read_key :
    (len : ℕ) (key : List ℕ)
    → length key < 256
    → 3 + length key ≤ len
    → Decodes (read_key len (length key)) key key
unfolding read_key
Decodes-read_key len key short room =
    rw (le→ltb len (3 + length key) room, lt→leb (length key) 256 short) (Decodes-read_bytes key)

Decodes-read_value :
    (len offset : ℕ) (value : List ℕ)
    → length value ≤ 2 ^ 20
    → offset + 4 + length value ≤ len
    → Decodes (read_value len offset) value (write_u32 (length value) ++ value)
unfolding read_value
Decodes-read_value len offset value small room =
    let n = length value in
    rw (le→ltb len (offset + 4) (omega arith)) (
      Decodes-bind _ (Decodes-read_u32 n (omega arith))
        (rw (le→ltb len (offset + 4 + n) room, le→ltb (2 ^ 20) n small) (Decodes-read_bytes value)))

-- A SET of a C string shorter than 256 bytes and a value of at most a mebibyte is written into any
-- buffer with room for it, takes just that room, and is read back as the same command.
pub deserialize-serialize_set :
    (key value : List ℕ) (buffer_size : ℕ)
    → IsString key
    → length key < 256
    → length value ≤ 2 ^ 20
    → 7 + length key + length value ≤ buffer_size
    → (bytes : List ℕ) × (serialize_set key value buffer_size ≡ some bytes)
      × (length bytes ≡ 7 + length key + length value)
      × (deserialize_command bytes ≡ ok (set_command key value))
unfolding serialize_set deserialize_command read_body write_u16 write_u32
deserialize-serialize_set key value buffer_size str short small room =
    let k = length key in
    let n = length value in
    let small16 : k % 2 ^ 16 ≡ k = omega arith in
    let small32 : n % 2 ^ 32 ≡ n = omega arith in
    let tail = write_u32 n ++ value in
    let bytes = 1 ∷ (write_u16 k ++ (key ++ tail)) in
    let size : length bytes ≡ 7 + k + n = omega (arith, length-append key tail) in
    let decodes : Decodes
        (do
          cmd_type ← read_u8
          key_len ← read_u16
          key ← read_key (length bytes) key_len
          read_body (length bytes) cmd_type (3 + key_len) (c_string key))
        (set_command (c_string key) value) bytes =
      Decodes-bind _ (Decodes-read_u8 1) (
        Decodes-bind _ (Decodes-read_u16 k (omega arith)) (
          Decodes-bind _ (Decodes-read_key (length bytes) key short (omega arith)) (
            Decodes-map (set_command (c_string key))
              (Decodes-read_value (length bytes) (3 + k) value small (omega arith))))) in
    (
      bytes,
      rw
          (
            le→ltb buffer_size (1 + 2 + k + 4 + n) (omega arith),
            lt→leb k 256 short,
            small16,
            small32,
          )
          refl,
      size,
      Decodes-checked 3 decodes (omega arith)
          ∙ ap (λ k. ok (set_command k value)) (c_string_lem key str),
    )

-- An UNSET of a C string shorter than 256 bytes is written into any buffer with room for it, takes just that room, and is
-- read back as the same command.
pub deserialize-serialize_unset :
    (key : List ℕ) (buffer_size : ℕ)
    → IsString key
    → length key < 256
    → 3 + length key ≤ buffer_size
    → (bytes : List ℕ) × (serialize_unset key buffer_size ≡ some bytes)
      × (length bytes ≡ 3 + length key)
      × (deserialize_command bytes ≡ ok (unset_command key))
unfolding serialize_unset deserialize_command read_body write_u16
deserialize-serialize_unset key buffer_size str short room =
    let k = length key in
    let small : k % 2 ^ 16 ≡ k = omega arith in
    let bytes = 2 ∷ (write_u16 k ++ (key ++ [])) in
    let same : bytes ≡ 2 ∷ (write_u16 k ++ key) = rw (append-nil key) refl in
    let size : length bytes ≡ 3 + k = omega (arith, ap length (append-nil key)) in
    let decodes : Decodes
        (do
          cmd_type ← read_u8
          key_len ← read_u16
          key ← read_key (length bytes) key_len
          read_body (length bytes) cmd_type (3 + key_len) (c_string key))
        (unset_command (c_string key)) bytes =
      Decodes-bind _ (Decodes-read_u8 2) (
        Decodes-bind _ (Decodes-read_u16 k (omega arith)) (
          Decodes-bind _ (Decodes-read_key (length bytes) key short (omega arith))
            (Decodes-pure (unset_command (c_string key))))) in
    (
      bytes,
      rw (le→ltb buffer_size (1 + 2 + k) (omega arith), lt→leb k 256 short, small, append-nil key)
          refl,
      size,
      Decodes-checked 3 decodes (omega arith)
          ∙ ap (λ k. ok (unset_command k)) (c_string_lem key str),
    )

Guarded-read_value : (len offset : ℕ) → Guarded len offset (λ _. Unit) (read_value len offset)
unfolding read_value
Guarded-read_value len offset = Guarded-test (ltb len (offset + 4)) λ long.
    Guarded-bind Takes-read_u32 (ground arith) λ n.
      Guarded-test (ltb len (offset + 4 + n) || ltb (2 ^ 20) n)
        λ ok. Guarded-last (Takes-read_bytes n) (ground arith)

Guarded-read_body :
    (len cmd_type offset : ℕ) (key : List ℕ)
    → Guarded len offset (λ _. Unit) (read_body len cmd_type offset key)
unfolding read_body
Guarded-read_body len cmd_type offset key = elim (Bool-cases (cmd_type == 1)) [
  | inl one ↦ rw one (Guarded-map (λ value. set_command key value) (Guarded-read_value len offset))
  | inr other ↦ rw other (elim (Bool-cases (cmd_type == 2)) [
    | inl two ↦ rw two (Guarded-pure (λ _. Unit) (unset_command key) tt)
    | inr none_of ↦ rw none_of (record { runs = λ xs e. tt })
  ])
]

deserialize_command-Returns : (buffer : List ℕ) → Returns (λ _. Unit) (deserialize_command buffer)
unfolding deserialize_command read_key
deserialize_command-Returns buffer =
    let len = length buffer in
    checked-Returns 3 _ (λ _. Unit) buffer
      λ h. Guarded-bind Takes-read_u8 (omega arith) λ cmd_type.
        Guarded-bind Takes-read_u16 (omega arith) λ key_len.
          Guarded-test_bind (read_bytes key_len) _ (ltb len (3 + key_len) || leb 256 key_len)
            λ inside.
              Guarded-bind (Takes-read_bytes key_len) (ground arith)
                λ key. Guarded-read_body len cmd_type (3 + key_len) (c_string key)

-- No command, however malformed, makes the datastore read past its end.
pub deserialize_command-ne-fault : (buffer : List ℕ) → deserialize_command buffer ≢ fault
deserialize_command-ne-fault buffer = Returns-ne-fault (deserialize_command-Returns buffer)
