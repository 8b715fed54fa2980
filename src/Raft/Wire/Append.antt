-- ===== src/Raft/Wire/Append.antt =====
-- The AppendEntries messages of raft_serialization.c.
pub mod RoundTrip
pub mod Safety
use e_roole.Prelude.{
  ℕ, zero, suc, ◌+◌, ◌-◌, ◌%◌, ◌^◌, ◌≤◌, ◌<◌, ◌≡◌, ◌≢◌, refl, ap, sym, Bool, true, false, List, [],
  ◌∷◌, ◌++◌, append_assoc, append-nil, Option, none, some, length, length-append, drop, drop-append,
  All, ltb, if◌then◌else◌, arith, le→ltb, Bool-cases, inl, inr,
}
use e_roole.Wire.Word.{
  write_u16, write_u32, write_u64, read_u16, read_u32, read_u64, Decodes-read_u16, Decodes-read_u32,
  Decodes-read_u64, Takes-read_u16, Takes-read_u32, Takes-read_u64,
}
use e_roole.Wire.Reader.{
  Parsed, ok, fail, fault, Reader, ◌>>=◌, pure, read_flag, write_flag, checked, and_then, advance,
  Decodes, Decodes-bind, Decodes-map, Decodes-read_flag, Takes-bind, Takes-pure, Takes-read_flag,
  checked-ok, checked-ne-fault, advance-append,
}
use native.Mathlib.Nat.{mod-eq_of_lt}
use e_roole.Raft.Types.{Entry, AppendEntriesReq, AppendEntriesResp}
use e_roole.Wire.Guarded.{
  Returns, checked-Returns, and_then-Returns, advance-Returns, Returns-ne-fault, Guarded,
  Guarded-bind, Guarded-pure,
}
use e_roole.Raft.Wire.Entry.{
  serialize_log_entry, deserialize_log_entry, entry_bytes, IsEntry, length-entry_bytes,
  serialize_log_entry-entry_bytes, deserialize_entry_bytes, deserialize_log_entry-Returns,
}

-- The loop over `entries`, with the space that is left in the buffer.
pub serialize_entries : List Entry → ℕ → Option (List ℕ)
serialize_entries [] remaining = some []
serialize_entries (e ∷ es) remaining = elim (serialize_log_entry e remaining) [
  | none ↦ none
  | some bytes ↦ elim (serialize_entries es (remaining - length bytes)) [
    | none ↦ none
    | some rest ↦ some (bytes ++ rest)
  ]
]

pub append_header_bytes : AppendEntriesReq → List ℕ
append_header_bytes req =
    write_u64 req.term
    ++ (write_u16 req.leader_id
        ++ (write_u64 req.prev_log_index
            ++ (write_u64 req.prev_log_term
                ++ (write_u64 req.leader_commit ++ write_u32 (length req.entries % 2 ^ 32)))))

pub serialize_append_entries_req : AppendEntriesReq → ℕ → Option (List ℕ)
serialize_append_entries_req req buffer_size =
    if ltb buffer_size 38 then none else elim (serialize_entries req.entries (buffer_size - 38)) [
      | none ↦ none
      | some rest ↦ some (append_header_bytes req ++ rest)
    ]

-- The header of the request, and the entry count.
pub read_append_header : Reader (AppendEntriesReq × ℕ)
read_append_header = do
  term ← read_u64
  leader_id ← read_u16
  prev_log_index ← read_u64
  prev_log_term ← read_u64
  leader_commit ← read_u64
  entry_count ← read_u32
  pure (
    record {
      term = term;
      leader_id = leader_id;
      prev_log_index = prev_log_index;
      prev_log_term = prev_log_term;
      leader_commit = leader_commit;
      entries = [];
    },
    entry_count,
  )

-- The loop that reads `entry_count` entries; the list is what is left of the buffer.
pub deserialize_entries : ℕ → List ℕ → Parsed (List Entry)
deserialize_entries zero rest = ok []
deserialize_entries (suc n) rest = and_then (deserialize_log_entry rest) λ e.
    and_then (advance (31 + e.data_len) rest)
      λ rest'. and_then (deserialize_entries n rest') λ es. ok (e ∷ es)

pub deserialize_append_entries_req : List ℕ → Parsed AppendEntriesReq
deserialize_append_entries_req buffer = and_then (checked 38 read_append_header buffer) λ h.
    if ltb 1000 h.1
    then fail
    else and_then (advance 38 buffer)
        λ rest. and_then (deserialize_entries h.1 rest) λ es. ok (record (h.0) { entries = es })

pub append_resp_bytes : AppendEntriesResp → List ℕ
append_resp_bytes resp =
    write_u64 resp.term ++ (write_flag resp.success ++ write_u64 resp.match_index)

pub serialize_append_entries_resp : AppendEntriesResp → ℕ → Option (List ℕ)
serialize_append_entries_resp resp buffer_size =
    if ltb buffer_size 17 then none else some (append_resp_bytes resp)

pub read_append_resp : Reader AppendEntriesResp
read_append_resp = do
  term ← read_u64
  success ← read_flag
  match_index ← read_u64
  pure (record { term = term; success = success; match_index = match_index })

pub deserialize_append_entries_resp : List ℕ → Parsed AppendEntriesResp
deserialize_append_entries_resp buffer = checked 17 read_append_resp buffer
