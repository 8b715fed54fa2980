-- ===== src/Raft/Wire/Append/RoundTrip.antt =====
-- Reading back the AppendEntries messages of raft_serialization.c.
use e_roole.Prelude.{
  ℕ, ◌+◌, ◌-◌, ◌^◌, ◌≤◌, ◌<◌, ◌≡◌, refl, List, [], ◌∷◌, ◌++◌, append_assoc, some, length,
  length-append, All, arith, le→ltb,
}
use e_roole.Wire.Word.{
  write_u16, write_u32, write_u64, Decodes-read_u16, Decodes-read_u32, Decodes-read_u64,
}
use e_roole.Wire.Reader.{
  ok, write_flag, Decodes, Decodes-bind, Decodes-map, Decodes-read_flag, checked-ok, advance-append,
}
use native.Mathlib.Nat.{mod-eq_of_lt}
use e_roole.Raft.Types.{Entry, AppendEntriesReq, AppendEntriesResp}
use e_roole.Raft.Wire.Entry.{
  entry_bytes, IsEntry, length-entry_bytes, serialize_log_entry-entry_bytes,
  deserialize_entry_bytes,
}
use e_roole.Raft.Wire.Append.{
  serialize_entries, append_header_bytes, serialize_append_entries_req, read_append_header,
  deserialize_entries, deserialize_append_entries_req, append_resp_bytes,
  serialize_append_entries_resp, read_append_resp, deserialize_append_entries_resp,
}

entries_bytes : List Entry → List ℕ
entries_bytes [] = []
entries_bytes (e ∷ es) = entry_bytes e ++ entries_bytes es

-- How much room the entries take.
abbrev pub entries_size : List Entry → ℕ
entries_size [] = 0
entries_size (e ∷ es) = 31 + e.data_len + entries_size es

length-entries_bytes :
    (es : List Entry) → All IsEntry es → length (entries_bytes es) ≡ entries_size es
unfolding entries_bytes
length-entries_bytes [] h = refl
length-entries_bytes (e ∷ es) h = omega (
  arith,
  length-append (entry_bytes e) (entries_bytes es),
  length-entry_bytes e h.0.3,
  length-entries_bytes es h.1,
)

serialize_entries-entries_bytes :
    (es : List Entry) (remaining : ℕ)
    → All IsEntry es
    → entries_size es ≤ remaining
    → serialize_entries es remaining ≡ some (entries_bytes es)
unfolding serialize_entries entries_bytes
serialize_entries-entries_bytes [] remaining h room = refl
serialize_entries-entries_bytes (e ∷ es) remaining h room = rw (
  serialize_log_entry-entry_bytes e remaining h.0.4 (omega arith),
  serialize_entries,
  length-entry_bytes e h.0.3,
  serialize_entries-entries_bytes es (remaining - (31 + e.data_len)) h.1 (omega arith),
  serialize_entries,
)

deserialize_entries-entries_bytes :
    (es : List Entry) (more : List ℕ)
    → All IsEntry es
    → deserialize_entries (length es) (entries_bytes es ++ more) ≡ ok es
unfolding deserialize_entries entries_bytes
deserialize_entries-entries_bytes [] more h = refl
deserialize_entries-entries_bytes (e ∷ es) more h = rw (
  append_assoc (entry_bytes e) (entries_bytes es) more,
  deserialize_entry_bytes e (entries_bytes es ++ more) h.0,
  ← length-entry_bytes e h.0.3,
  advance-append (entry_bytes e) (entries_bytes es ++ more),
  deserialize_entries-entries_bytes es more h.1,
)

-- The fields fit their C types, and there are no more entries than a receiver accepts.
abbrev pub IsAppendReq : AppendEntriesReq → Type 0
IsAppendReq req =
    (req.term < 2 ^ 64)
    × (req.leader_id < 2 ^ 16)
    × (req.prev_log_index < 2 ^ 64)
    × (req.prev_log_term < 2 ^ 64)
    × (req.leader_commit < 2 ^ 64)
    × (length req.entries ≤ 1000)
    × All IsEntry req.entries

Decodes-read_append_header :
    (req : AppendEntriesReq)
    → IsAppendReq req
    → Decodes read_append_header
        (record req { entries = [] }, length req.entries)
        (append_header_bytes req)
unfolding read_append_header append_header_bytes
Decodes-read_append_header req (t, l, i, p, c, n, _) =
    rw (mod-eq_of_lt {n = length req.entries} {m = 2 ^ 32} (omega arith)) (
      Decodes-bind _ (Decodes-read_u64 _ t) (
        Decodes-bind _ (Decodes-read_u16 _ l) (
          Decodes-bind _ (Decodes-read_u64 _ i) (
            Decodes-bind _ (Decodes-read_u64 _ p) (
              Decodes-bind _ (Decodes-read_u64 _ c)
                (Decodes-map _ (Decodes-read_u32 _ (omega arith))))))))

length-append_header_bytes : (req : AppendEntriesReq) → length (append_header_bytes req) ≡ 38
unfolding append_header_bytes write_u64 write_u32 write_u16
length-append_header_bytes req = refl

deserialize_append_bytes :
    (req : AppendEntriesReq) (more : List ℕ)
    → IsAppendReq req
    → deserialize_append_entries_req
        (append_header_bytes req ++ (entries_bytes req.entries ++ more))
      ≡ ok req
unfolding deserialize_append_entries_req
deserialize_append_bytes req more h =
    let bytes = append_header_bytes req in
    let rest = entries_bytes req.entries ++ more in
    rw (
      checked-ok 38 rest (Decodes-read_append_header req h)
          (omega (arith, length-append_header_bytes req)),
      le→ltb 1000 (length req.entries) h.5,
      ← length-append_header_bytes req,
      advance-append bytes rest,
      deserialize_entries-entries_bytes req.entries more h.6,
    )

-- An AppendEntries request with at most 1000 entries, whose fields fit their C types, is written
-- into any buffer with room for its header and entries, takes exactly that many bytes, and is read
-- back with all its entries, whatever bytes follow it.
pub deserialize-serialize_append_entries_req :
    (req : AppendEntriesReq) (buffer_size : ℕ) (more : List ℕ)
    → IsAppendReq req
    → 38 + entries_size req.entries ≤ buffer_size
    → (bytes : List ℕ) × (serialize_append_entries_req req buffer_size ≡ some bytes)
      × (length bytes ≡ 38 + entries_size req.entries)
      × (deserialize_append_entries_req (bytes ++ more) ≡ ok req)
unfolding serialize_append_entries_req
deserialize-serialize_append_entries_req req buffer_size more h room =
    let header = append_header_bytes req in
    let rest = entries_bytes req.entries in
    (
      header ++ rest,
      rw (
        le→ltb buffer_size 38 (omega arith),
        serialize_entries-entries_bytes req.entries (buffer_size - 38) h.6 (omega arith),
      ),
      omega (
        arith,
        length-append header rest,
        length-append_header_bytes req,
        length-entries_bytes req.entries h.6,
      ),
      rw (append_assoc header rest more) (deserialize_append_bytes req more h),
    )

Decodes-read_append_resp :
    (resp : AppendEntriesResp)
    → resp.term < 2 ^ 64
    → resp.match_index < 2 ^ 64
    → Decodes read_append_resp resp (append_resp_bytes resp)
unfolding read_append_resp append_resp_bytes
Decodes-read_append_resp resp t m =
    Decodes-bind _ (Decodes-read_u64 _ t)
      (Decodes-bind _ (Decodes-read_flag _) (Decodes-map _ (Decodes-read_u64 _ m)))

length-append_resp_bytes : (resp : AppendEntriesResp) → length (append_resp_bytes resp) ≡ 17
unfolding append_resp_bytes write_u64 write_u32 write_u16 write_flag
length-append_resp_bytes resp = refl

-- An AppendEntries response whose fields fit their C types is written into any buffer of at least
-- 17 bytes, takes 17 bytes, and is read back, whatever bytes follow it.
pub deserialize-serialize_append_entries_resp :
    (resp : AppendEntriesResp) (buffer_size : ℕ) (more : List ℕ)
    → resp.term < 2 ^ 64
    → resp.match_index < 2 ^ 64
    → 17 ≤ buffer_size
    → (bytes : List ℕ) × (serialize_append_entries_resp resp buffer_size ≡ some bytes)
      × (length bytes ≡ 17)
      × (deserialize_append_entries_resp (bytes ++ more) ≡ ok resp)
unfolding serialize_append_entries_resp deserialize_append_entries_resp
deserialize-serialize_append_entries_resp resp buffer_size more t m room = (
  append_resp_bytes resp,
  rw (le→ltb buffer_size 17 room),
  length-append_resp_bytes resp,
  checked-ok 17 more (Decodes-read_append_resp resp t m)
      (omega (arith, length-append_resp_bytes resp)),
)
