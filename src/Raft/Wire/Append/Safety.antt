-- ===== src/Raft/Wire/Append/Safety.antt =====
-- The reads of the AppendEntries deserialisers of raft_serialization.c.
use e_roole.Prelude.{
  ℕ, zero, suc, ◌+◌, ◌≤◌, ◌≡◌, ◌≢◌, refl, ap, List, [], ◌∷◌, length, ltb, arith, Bool-cases, inl,
  inr,
}
use e_roole.Wire.Word.{Takes-read_u16, Takes-read_u32, Takes-read_u64}
use e_roole.Wire.Reader.{fault, checked, Takes-bind, Takes-pure, Takes-read_flag, checked-ne-fault}
use e_roole.Wire.Guarded.{
  Returns, checked-Returns, and_then-Returns, advance-Returns, Returns-ok, Returns-fail,
  Guarded-bind, Guarded-pure,
}
use e_roole.Raft.Wire.Entry.{deserialize_log_entry-Returns}
use e_roole.Raft.Wire.Append.{
  read_append_header, deserialize_entries, deserialize_append_entries_req, read_append_resp,
  deserialize_append_entries_resp,
}

deserialize_entries-Returns :
    (n : ℕ) (rest : List ℕ) → Returns (λ es. length es ≡ n) (deserialize_entries n rest)
unfolding deserialize_entries
deserialize_entries-Returns zero rest = Returns-ok [] refl
deserialize_entries-Returns (suc n) rest =
    and_then-Returns _ (deserialize_log_entry-Returns rest) λ e fits.
      and_then-Returns _ (advance-Returns (31 + e.data_len) rest fits) λ rest' _.
        and_then-Returns _ (deserialize_entries-Returns n rest')
          λ es l. Returns-ok (e ∷ es) (ap suc l)

read_append_header-Returns :
    (buffer : List ℕ) → Returns (λ _. 38 ≤ length buffer) (checked 38 read_append_header buffer)
unfolding read_append_header
read_append_header-Returns buffer =
    checked-Returns 38 read_append_header (λ _. 38 ≤ length buffer) buffer
      λ h. Guarded-bind Takes-read_u64 (omega arith) λ _.
        Guarded-bind Takes-read_u16 (omega arith) λ _.
          Guarded-bind Takes-read_u64 (omega arith) λ _.
            Guarded-bind Takes-read_u64 (omega arith) λ _.
              Guarded-bind Takes-read_u64 (omega arith)
                λ _. Guarded-bind Takes-read_u32 (omega arith) λ _. Guarded-pure _ _ h

-- No buffer, whatever entry count and data lengths it states, makes the deserialiser of
-- AppendEntries requests read past its end, and a request that it accepts has at most 1000 entries.
pub deserialize_append_entries_req-Returns :
    (buffer : List ℕ)
    → Returns (λ req. length req.entries ≤ 1000) (deserialize_append_entries_req buffer)
unfolding deserialize_append_entries_req
deserialize_append_entries_req-Returns buffer =
    and_then-Returns _ (read_append_header-Returns buffer) λ h l. elim (Bool-cases (ltb 1000 h.1)) [
      | inl over ↦ rw over (Returns-fail _)
      | inr fits ↦ rw fits (
          and_then-Returns _ (advance-Returns 38 buffer l) λ rest _.
            and_then-Returns _ (deserialize_entries-Returns h.1 rest)
              λ es k. Returns-ok _ (ground arith))
    ]

pub deserialize_append_entries_resp-ne-fault :
    (buffer : List ℕ) → deserialize_append_entries_resp buffer ≢ fault
unfolding deserialize_append_entries_resp read_append_resp
deserialize_append_entries_resp-ne-fault = checked-ne-fault (
    Takes-bind Takes-read_u64
      λ _. Takes-bind Takes-read_flag λ _. Takes-bind Takes-read_u64 λ _. Takes-pure _)
