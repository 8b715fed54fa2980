-- ===== src/Raft/Wire/Entry.antt =====
-- raft_serialize_log_entry and raft_deserialize_log_entry, and what the other messages share.
-- A serialiser returns the bytes that it wrote, or `none` where the source returns 0; a buffer is
-- the list of its bytes. Allocations succeed.
use e_roole.Prelude.{
  ℕ, zero, suc, ◌+◌, ◌%◌, ◌^◌, ◌≤◌, ◌<◌, ◌≡◌, inl, inr, List, [], ◌∷◌, ◌++◌, Option, none, some,
  length, length-append, take, take-length, length-take, ltb, if◌then◌else◌, arith, le→ltb,
  Bool-cases,
}
use e_roole.Wire.Word.{
  write_u16, write_u32, write_u64, read_u16, read_u32, read_u64, Decodes-read_u16, Decodes-read_u32,
  Decodes-read_u64, Takes-read_u16, Takes-read_u32, Takes-read_u64,
}
use e_roole.Wire.Reader.{
  Parsed, ok, Reader, ◌>>=◌, pure, read_u8, read_bytes, checked, failing, Takes-read_u8,
  Takes-read_bytes, Decodes, Decodes-bind, Decodes-map, Decodes-pure, Decodes-read_u8,
  Decodes-read_bytes, checked-ok,
}
use e_roole.Wire.Guarded.{Returns, Guarded, Guarded-bind, Guarded-pure, checked-Returns}
use e_roole.Raft.Types.{Entry}
use native.Mathlib.Nat.{mod-eq_of_lt}

-- `if (len > 0 && data) memcpy(buffer + offset, data, len)`
abbrev pub payload : Option (List ℕ) → ℕ → List ℕ
payload none n = []
payload (some d) n = take n d

-- `size_t` addition
abbrev pub add_size : ℕ → ℕ → ℕ
add_size a b = (a + b) % 2 ^ 64

pub entry_bytes : Entry → List ℕ
entry_bytes e =
    write_u64 e.term
    ++ (write_u64 e.index
        ++ ((e.entry_type % 256 ∷ [])
            ++ (write_u32 (e.data_len % 2 ^ 32)
                ++ (payload e.data_ptr e.data_len
                    ++ (write_u64 e.timestamp_ms ++ write_u16 e.client_id)))))

pub serialize_log_entry : Entry → ℕ → Option (List ℕ)
serialize_log_entry e buffer_size =
    if ltb buffer_size (add_size 31 e.data_len) then none else some (entry_bytes e)

-- The payload of an entry: the offset is 21 where its length is checked.
pub read_payload : ℕ → ℕ → Reader (Option (List ℕ))
read_payload buffer_len zero = pure none
read_payload buffer_len (suc n) =
    if ltb buffer_len (21 + suc n + 8 + 2)
    then failing
    else (do d ← read_bytes (suc n); pure (some d))

pub read_entry : ℕ → Reader Entry
read_entry buffer_len = do
  term ← read_u64
  index ← read_u64
  entry_type ← read_u8
  data_len ← read_u32
  data_ptr ← read_payload buffer_len data_len
  timestamp_ms ← read_u64
  client_id ← read_u16
  pure (record {
    term = term;
    index = index;
    entry_type = entry_type;
    data_ptr = data_ptr;
    data_len = data_len;
    timestamp_ms = timestamp_ms;
    client_id = client_id;
  })

pub deserialize_log_entry : List ℕ → Parsed Entry
deserialize_log_entry buffer = checked 31 (read_entry (length buffer)) buffer

-- The pointer and the stated length agree.
abbrev pub HasData : Option (List ℕ) → ℕ → Type 0
HasData none n = n ≡ 0
HasData (some d) n = (length d ≡ n) × (0 < n)

-- The fields fit their C types, and the length fits the four bytes that carry it.
abbrev pub IsEntry : Entry → Type 0
IsEntry e =
    (e.term < 2 ^ 64)
    × (e.index < 2 ^ 64)
    × (e.entry_type < 256)
    × HasData e.data_ptr e.data_len
    × (e.data_len < 2 ^ 32)
    × (e.timestamp_ms < 2 ^ 64)
    × (e.client_id < 2 ^ 16)

pub length-payload : (p : Option (List ℕ)) (n : ℕ) → HasData p n → length (payload p n) ≡ n
length-payload none n h = omega arith
length-payload (some d) n h = omega (arith, length-take n d)

pub Decodes-read_bytes_of :
    (n : ℕ) (d : List ℕ) → length d ≡ n → Decodes (read_bytes n) d (take n d)
Decodes-read_bytes_of n d e = rw (← e, take-length d) (Decodes-read_bytes d)

Decodes-read_payload :
    (buffer_len : ℕ) (p : Option (List ℕ)) (n : ℕ)
    → HasData p n
    → 31 + n ≤ buffer_len
    → Decodes (read_payload buffer_len n) p (payload p n)
unfolding read_payload
Decodes-read_payload buffer_len none zero h l = Decodes-pure none
Decodes-read_payload buffer_len none (suc n) h l = absurd (omega arith)
Decodes-read_payload buffer_len (some d) zero h l = absurd (omega arith)
Decodes-read_payload buffer_len (some d) (suc n) h l =
    rw (le→ltb buffer_len (21 + suc n + 8 + 2) (omega arith))
      (Decodes-map some (Decodes-read_bytes_of (suc n) d h.0))

Decodes-read_entry :
    (buffer_len : ℕ) (e : Entry)
    → IsEntry e
    → 31 + e.data_len ≤ buffer_len
    → Decodes (read_entry buffer_len) e (entry_bytes e)
unfolding read_entry entry_bytes
Decodes-read_entry buffer_len e (t, i, y, d, l, s, c) room =
    rw (mod-eq_of_lt y, mod-eq_of_lt l)
      (Decodes-bind _ (Decodes-read_u64 _ t) (
        Decodes-bind _ (Decodes-read_u64 _ i) (
          Decodes-bind _ (Decodes-read_u8 _) (
            Decodes-bind _ (Decodes-read_u32 _ l) (
              Decodes-bind _ (Decodes-read_payload buffer_len _ _ d room)
                (Decodes-bind _ (Decodes-read_u64 _ s) (Decodes-map _ (Decodes-read_u16 _ c))))))))

pub length-entry_bytes :
    (e : Entry) → HasData e.data_ptr e.data_len → length (entry_bytes e) ≡ 31 + e.data_len
unfolding entry_bytes write_u64 write_u32 write_u16
length-entry_bytes e h =
    let p = payload e.data_ptr e.data_len in
    omega (
      arith,
      length-payload e.data_ptr e.data_len h,
      length-append p (write_u64 e.timestamp_ms ++ write_u16 e.client_id),
    )

pub deserialize_entry_bytes :
    (e : Entry) (more : List ℕ) → IsEntry e → deserialize_log_entry (entry_bytes e ++ more) ≡ ok e
unfolding deserialize_log_entry
deserialize_entry_bytes e more h =
    let bytes = entry_bytes e in
    checked-ok 31 more
      (Decodes-read_entry (length (bytes ++ more)) e h
        (omega (arith, length-append bytes more, length-entry_bytes e h.3)))
      (omega (arith, length-entry_bytes e h.3))

pub serialize_log_entry-entry_bytes :
    (e : Entry) (buffer_size : ℕ)
    → e.data_len < 2 ^ 32
    → 31 + e.data_len ≤ buffer_size
    → serialize_log_entry e buffer_size ≡ some (entry_bytes e)
unfolding serialize_log_entry
serialize_log_entry-entry_bytes e buffer_size h room =
    rw (le→ltb buffer_size (add_size 31 e.data_len) (omega arith))

-- A log entry whose fields fit their C types is written into any buffer with room for 31 bytes and
-- its data, takes exactly that many bytes, and is read back, whatever follows it.
pub deserialize-serialize_log_entry :
    (e : Entry) (buffer_size : ℕ) (more : List ℕ)
    → IsEntry e
    → 31 + e.data_len ≤ buffer_size
    → (bytes : List ℕ) × (serialize_log_entry e buffer_size ≡ some bytes)
      × (length bytes ≡ 31 + e.data_len)
      × (deserialize_log_entry (bytes ++ more) ≡ ok e)
deserialize-serialize_log_entry e buffer_size more h room = (
  entry_bytes e,
  serialize_log_entry-entry_bytes e buffer_size h.4 room,
  length-entry_bytes e h.3,
  deserialize_entry_bytes e more h,
)

-- The data of an entry, and the ten bytes after it, lie inside the buffer.
Guarded-read_payload :
    {B : Type 0} {f : Option (List ℕ) → Reader B} {buffer_len : ℕ} {Q : B → Type 0} (n : ℕ)
    → 31 ≤ buffer_len
    → ((p : Option (List ℕ)) → 31 + n ≤ buffer_len → Guarded buffer_len (21 + n) Q (f p))
    → Guarded buffer_len 21 Q (read_payload buffer_len n >>= f)
unfolding read_payload
Guarded-read_payload {f = f} zero h g = record { runs = λ xs e. (g none h).runs xs (omega arith) }
Guarded-read_payload {f = f} {buffer_len = l} {Q = Q} (suc n) h g =
    elim (Bool-cases (ltb l (21 + suc n + 8 + 2))) [
      | inl short ↦ rw short (record { runs = λ xs e. tt })
      | inr long ↦ rw long (record {
        runs = λ xs e.
            let (v, rest, e', k) = (Takes-read_bytes (suc n)).runs xs (ground arith) in
            rw (e', ◌>>=◌) ((g (some v) (ground arith)).runs rest (omega arith));
      })
    ]

-- No buffer makes the deserialiser read past its end; an entry that it accepts lies inside the
-- buffer, so the offset that the caller moves on by, 31 and the length of the data, does too.
pub deserialize_log_entry-Returns :
    (buffer : List ℕ)
    → Returns (λ e. 31 + e.data_len ≤ length buffer) (deserialize_log_entry buffer)
unfolding deserialize_log_entry read_entry
deserialize_log_entry-Returns buffer =
    let n = length buffer in
    checked-Returns 31 (read_entry n) (λ e. 31 + e.data_len ≤ n) buffer
      λ h. Guarded-bind Takes-read_u64 (omega arith) λ _.
        Guarded-bind Takes-read_u64 (omega arith) λ _. Guarded-bind Takes-read_u8 (omega arith) λ _.
          Guarded-bind Takes-read_u32 (omega arith) λ data_len.
            Guarded-read_payload data_len h λ _ fits.
              Guarded-bind Takes-read_u64 (omega arith)
                λ _. Guarded-bind Takes-read_u16 (omega arith) λ _. Guarded-pure _ _ fits
