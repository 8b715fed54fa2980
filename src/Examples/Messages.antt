-- ===== src/Examples/Messages.antt =====
-- Messages and commands as bytes.
use e_roole.Prelude.{ℕ, ◌+◌, ◌≤◌, ◌≡◌, refl, List, [], ◌∷◌, ◌++◌, some, length, arith}
use e_roole.Wire.Reader.{ok}
use e_roole.Wire.Guarded.{Returns}
use e_roole.Raft.Wire.Entry.{IsEntry}
use e_roole.Raft.Wire.Append.{serialize_append_entries_req, deserialize_append_entries_req}
use e_roole.Raft.Wire.Append.RoundTrip.{deserialize-serialize_append_entries_req}
use e_roole.Raft.Wire.Append.Safety.{deserialize_append_entries_req-Returns}
use e_roole.Examples.Data.{entry_at, two_entries}

deserialize-serialize_append_entries_req_example :
    (bytes : List ℕ) × (serialize_append_entries_req two_entries 1024 ≡ some bytes)
    × (length bytes ≡ 38 + 66)
    × (deserialize_append_entries_req (bytes ++ []) ≡ ok two_entries)
deserialize-serialize_append_entries_req_example =
    let fits3 : IsEntry (entry_at 5 3) = (
      omega arith,
      omega arith,
      omega arith,
      (refl, omega arith),
      omega arith,
      omega arith,
      omega arith,
    ) in
    let fits4 : IsEntry (entry_at 5 4) = (
      omega arith,
      omega arith,
      omega arith,
      (refl, omega arith),
      omega arith,
      omega arith,
      omega arith,
    ) in
    deserialize-serialize_append_entries_req two_entries 1024 []
      (
        omega arith,
        omega arith,
        omega arith,
        omega arith,
        omega arith,
        omega arith,
        (fits3, (fits4, tt)),
      )
      (omega arith)

deserialize_append_entries_req-Returns_example :
    Returns (λ req. length req.entries ≤ 1000) (deserialize_append_entries_req (1 ∷ 2 ∷ 3 ∷ []))
deserialize_append_entries_req-Returns_example =
    deserialize_append_entries_req-Returns (1 ∷ 2 ∷ 3 ∷ [])
