-- ===== src/Raft/Wire/Snapshot.antt =====
-- The InstallSnapshot messages of raft_serialization.c.
use e_roole.Prelude.{
  ℕ, zero, suc, ◌+◌, ◌%◌, ◌^◌, ◌≤◌, ◌<◌, ◌≡◌, refl, List, ◌++◌, Option, none, some, length,
  length-append, ltb, if◌then◌else◌, arith, le→ltb, Bool-cases, inl, inr,
}
use e_roole.Wire.Word.{
  write_u16, write_u32, write_u64, read_u16, read_u32, read_u64, Decodes-read_u16, Decodes-read_u32,
  Decodes-read_u64, Takes-read_u16, Takes-read_u32, Takes-read_u64,
}
use e_roole.Wire.Reader.{
  Parsed, ok, Reader, ◌>>=◌, pure, read_bytes, read_flag, write_flag, checked, failing, Decodes,
  Decodes-bind, Decodes-map, Decodes-pure, Decodes-read_flag, Takes-read_flag, Takes-read_bytes,
  checked-ok,
}
use e_roole.Raft.Types.{InstallSnapshotReq, InstallSnapshotResp}
use e_roole.Wire.Guarded.{Returns, Guarded, Guarded-bind, Guarded-pure, checked-Returns}
use e_roole.Raft.Wire.Entry.{payload, add_size, HasData, length-payload, Decodes-read_bytes_of}
use native.Mathlib.Nat.{mod-eq_of_lt}

pub snapshot_req_bytes : InstallSnapshotReq → List ℕ
snapshot_req_bytes req =
    write_u64 req.term
    ++ (write_u16 req.leader_id
        ++ (write_u64 req.last_included_index
            ++ (write_u64 req.last_included_term
                ++ (write_u64 req.offset
                    ++ (write_u32 (req.data_len % 2 ^ 32)
                        ++ (payload req.data_ptr req.data_len ++ write_flag req.done))))))

pub serialize_install_snapshot_req : InstallSnapshotReq → ℕ → Option (List ℕ)
serialize_install_snapshot_req req buffer_size =
    if ltb buffer_size 39
    then none
    else if ltb buffer_size (add_size 39 req.data_len)
    then none
    else some (snapshot_req_bytes req)

-- The snapshot's data: the offset is 38 where its length is checked.
pub read_snapshot_data : ℕ → ℕ → Reader (Option (List ℕ))
read_snapshot_data buffer_len zero = pure none
read_snapshot_data buffer_len (suc n) =
    if ltb buffer_len (38 + suc n + 1) then failing else (do d ← read_bytes (suc n); pure (some d))

pub read_snapshot_req : ℕ → Reader InstallSnapshotReq
read_snapshot_req buffer_len = do
  term ← read_u64
  leader_id ← read_u16
  last_included_index ← read_u64
  last_included_term ← read_u64
  offset ← read_u64
  data_len ← read_u32
  data_ptr ← read_snapshot_data buffer_len data_len
  done ← read_flag
  pure (record {
    term = term;
    leader_id = leader_id;
    last_included_index = last_included_index;
    last_included_term = last_included_term;
    offset = offset;
    data_ptr = data_ptr;
    data_len = data_len;
    done = done;
  })

pub deserialize_install_snapshot_req : List ℕ → Parsed InstallSnapshotReq
deserialize_install_snapshot_req buffer = checked 39 (read_snapshot_req (length buffer)) buffer

pub serialize_install_snapshot_resp : InstallSnapshotResp → ℕ → Option (List ℕ)
serialize_install_snapshot_resp resp buffer_size =
    if ltb buffer_size 8 then none else some (write_u64 resp.term)

pub read_snapshot_resp : Reader InstallSnapshotResp
read_snapshot_resp = do term ← read_u64; pure (record { term = term })

pub deserialize_install_snapshot_resp : List ℕ → Parsed InstallSnapshotResp
deserialize_install_snapshot_resp buffer = checked 8 read_snapshot_resp buffer

-- The fields fit their C types, the data pointer and length agree, and the length fits four bytes.
abbrev pub IsSnapshotReq : InstallSnapshotReq → Type 0
IsSnapshotReq req =
    (req.term < 2 ^ 64)
    × (req.leader_id < 2 ^ 16)
    × (req.last_included_index < 2 ^ 64)
    × (req.last_included_term < 2 ^ 64)
    × (req.offset < 2 ^ 64)
    × HasData req.data_ptr req.data_len
    × (req.data_len < 2 ^ 32)

Decodes-read_snapshot_data :
    (buffer_len : ℕ) (p : Option (List ℕ)) (n : ℕ)
    → HasData p n
    → 39 + n ≤ buffer_len
    → Decodes (read_snapshot_data buffer_len n) p (payload p n)
unfolding read_snapshot_data
Decodes-read_snapshot_data buffer_len none zero h l = Decodes-pure none
Decodes-read_snapshot_data buffer_len none (suc n) h l = absurd (omega arith)
Decodes-read_snapshot_data buffer_len (some d) zero h l = absurd (omega arith)
Decodes-read_snapshot_data buffer_len (some d) (suc n) h l =
    rw (le→ltb buffer_len (38 + suc n + 1) (omega arith))
      (Decodes-map some (Decodes-read_bytes_of (suc n) d h.0))

Decodes-read_snapshot_req :
    (buffer_len : ℕ) (req : InstallSnapshotReq)
    → IsSnapshotReq req
    → 39 + req.data_len ≤ buffer_len
    → Decodes (read_snapshot_req buffer_len) req (snapshot_req_bytes req)
unfolding read_snapshot_req snapshot_req_bytes
Decodes-read_snapshot_req buffer_len req (t, l, i, m, o, d, n) room = rw (mod-eq_of_lt n) (
    Decodes-bind _ (Decodes-read_u64 _ t) (
      Decodes-bind _ (Decodes-read_u16 _ l) (
        Decodes-bind _ (Decodes-read_u64 _ i) (
          Decodes-bind _ (Decodes-read_u64 _ m) (
            Decodes-bind _ (Decodes-read_u64 _ o) (
              Decodes-bind _ (Decodes-read_u32 _ n) (
                Decodes-bind _ (Decodes-read_snapshot_data buffer_len _ _ d room)
                  (Decodes-map _ (Decodes-read_flag _)))))))))

length-snapshot_req_bytes :
    (req : InstallSnapshotReq)
    → HasData req.data_ptr req.data_len
    → length (snapshot_req_bytes req) ≡ 39 + req.data_len
unfolding snapshot_req_bytes write_u64 write_u32 write_u16 write_flag
length-snapshot_req_bytes req h =
    let p = payload req.data_ptr req.data_len in
    omega (arith, length-payload req.data_ptr req.data_len h, length-append p (write_flag req.done))

-- An InstallSnapshot request whose fields fit their C types is written into any buffer with room
-- for 39 bytes and its data, takes exactly that many bytes, and is read back, whatever follows it.
pub deserialize-serialize_install_snapshot_req :
    (req : InstallSnapshotReq) (buffer_size : ℕ) (more : List ℕ)
    → IsSnapshotReq req
    → 39 + req.data_len ≤ buffer_size
    → (bytes : List ℕ) × (serialize_install_snapshot_req req buffer_size ≡ some bytes)
      × (length bytes ≡ 39 + req.data_len)
      × (deserialize_install_snapshot_req (bytes ++ more) ≡ ok req)
unfolding serialize_install_snapshot_req deserialize_install_snapshot_req
deserialize-serialize_install_snapshot_req req buffer_size more h room =
    let bytes = snapshot_req_bytes req in
    (
      bytes,
      rw (
        le→ltb buffer_size 39 (omega arith),
        le→ltb buffer_size (add_size 39 req.data_len) (omega arith),
      ),
      length-snapshot_req_bytes req h.5,
      checked-ok 39 more
          (Decodes-read_snapshot_req (length (bytes ++ more)) req h
            (omega (arith, length-append bytes more, length-snapshot_req_bytes req h.5)))
          (omega (arith, length-snapshot_req_bytes req h.5)),
    )

Guarded-read_snapshot_data :
    {B : Type 0} {f : Option (List ℕ) → Reader B} {buffer_len : ℕ} {Q : B → Type 0} (n : ℕ)
    → 39 ≤ buffer_len
    → ((p : Option (List ℕ)) → 39 + n ≤ buffer_len → Guarded buffer_len (38 + n) Q (f p))
    → Guarded buffer_len 38 Q (read_snapshot_data buffer_len n >>= f)
unfolding read_snapshot_data
Guarded-read_snapshot_data zero h g = record { runs = λ xs e. (g none h).runs xs (omega arith) }
Guarded-read_snapshot_data {buffer_len = l} (suc n) h g =
    elim (Bool-cases (ltb l (38 + suc n + 1))) [
      | inl short ↦ rw short (record { runs = λ xs e. tt })
      | inr long ↦ rw long (record {
        runs = λ xs e.
            let (v, rest, e', k) = (Takes-read_bytes (suc n)).runs xs (ground arith) in
            rw (e', ◌>>=◌) ((g (some v) (ground arith)).runs rest (omega arith));
      })
    ]

-- No buffer, whatever data length it states, makes the deserialiser of InstallSnapshot requests
-- read past its end, and the data of a request that it accepts lies inside the buffer.
pub deserialize_install_snapshot_req-Returns :
    (buffer : List ℕ)
    → Returns (λ req. 39 + req.data_len ≤ length buffer) (deserialize_install_snapshot_req buffer)
unfolding deserialize_install_snapshot_req read_snapshot_req
deserialize_install_snapshot_req-Returns buffer =
    let n = length buffer in
    checked-Returns 39 (read_snapshot_req n) (λ req. 39 + req.data_len ≤ n) buffer
      λ h. Guarded-bind Takes-read_u64 (omega arith) λ _.
        Guarded-bind Takes-read_u16 (omega arith) λ _.
          Guarded-bind Takes-read_u64 (omega arith) λ _.
            Guarded-bind Takes-read_u64 (omega arith) λ _.
              Guarded-bind Takes-read_u64 (omega arith) λ _.
                Guarded-bind Takes-read_u32 (omega arith) λ data_len.
                  Guarded-read_snapshot_data data_len h
                    λ _ fits. Guarded-bind Takes-read_flag (omega arith) λ _. Guarded-pure _ _ fits

-- An InstallSnapshot response whose term fits 64 bits is written into any buffer of at least 8
-- bytes, takes 8 bytes, and is read back, whatever follows it.
pub deserialize-serialize_install_snapshot_resp :
    (resp : InstallSnapshotResp) (buffer_size : ℕ) (more : List ℕ)
    → resp.term < 2 ^ 64
    → 8 ≤ buffer_size
    → (bytes : List ℕ) × (serialize_install_snapshot_resp resp buffer_size ≡ some bytes)
      × (length bytes ≡ 8)
      × (deserialize_install_snapshot_resp (bytes ++ more) ≡ ok resp)
unfolding serialize_install_snapshot_resp deserialize_install_snapshot_resp read_snapshot_resp
    write_u64 write_u32 write_u16
deserialize-serialize_install_snapshot_resp resp buffer_size more h room = (
  write_u64 resp.term,
  rw (le→ltb buffer_size 8 room),
  refl,
  checked-ok 8 more (Decodes-map (λ t. record { term = t }) (Decodes-read_u64 resp.term h))
      (omega arith),
)
