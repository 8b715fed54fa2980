-- ===== src/Rpc/Frame.antt =====
-- src/rpc/core/rpc_serialization.c and the header of rpc_types.h. A pointer argument is not NULL.
use e_roole.Prelude.{
  ℕ, ◌+◌, ◌*◌, ◌/◌, ◌%◌, ◌^◌, ◌≤◌, ◌<◌, ◌≡◌, ◌≢◌, ◌||◌, refl, ap, subst, sym, ◌∙◌, false, List, [],
  ◌∷◌, ◌++◌, length, ltb, if◌then◌else◌, arith, Bool-cases, inl, inr,
}
use e_roole.Wire.Word.{
  write_u16, write_u32, read_u16, read_u32, Decodes-read_u16, Decodes-read_u32, Takes-read_u16,
  Takes-read_u32,
}
use e_roole.Wire.Reader.{
  Parsed, ok, fail, fault, Reader, ◌>>=◌, pure, read_u8, Decodes, Decodes-bind, Decodes-map,
  Decodes-read_u8, Takes, Takes-bind, Takes-pure, Takes-read_u8,
}
use e_roole.Wire.Stream.{
  Leads, Leads-bind, Leads-pure, Leads-read_u8, Leads-read_u16, Leads-read_u32,
}
use e_roole.Wire.Guarded.{Returns, Returns-ok, Returns-fail}

-- `rpc_header_t`, with the two halves of its `type_and_status` byte.
pub record Header : Type 0 where
  pub total_len : ℕ
  pub request_id : ℕ
  pub sender_id : ℕ
  pub type : ℕ
  pub status : ℕ
  pub func_id : ℕ

-- `RPC_HEADER_SIZE` and the largest `total_len` that is accepted.
abbrev pub header_size : ℕ
header_size = 12

abbrev pub max_total_len : ℕ
max_total_len = 104857600

-- `rpc_type_status_t`: the type is the high half of the byte, as gcc lays the fields out.
abbrev pub type_status_byte : ℕ → ℕ → ℕ
type_status_byte type status = (type % 16) * 16 + status % 16

-- The bytes that `rpc_pack_message` writes before the payload.
unfoldable pub header_bytes : Header → List ℕ
header_bytes h =
    write_u32 h.total_len
    ++ (write_u32 h.request_id
        ++ (write_u16 h.sender_id ++ (type_status_byte h.type h.status ∷ h.func_id ∷ [])))

-- `rpc_pack_message`: the value it returns, and the bytes it writes.
unfoldable pub pack_message : ℕ → ℕ → ℕ → ℕ → ℕ → List ℕ → ℕ × List ℕ
pack_message node_id request_id type status func_id payload =
    let total_len = (header_size + length payload) % 2 ^ 32 in
    (
      total_len,
      header_bytes (record {
        total_len = total_len;
        request_id = request_id;
        sender_id = node_id;
        type = type;
        status = status;
        func_id = func_id;
      })
          ++ payload,
    )

-- The header as it stands in the buffer, which `rpc_unpack_header` reads without knowing the
-- buffer's length.
unfoldable pub read_header : Reader Header
read_header = do
  total_len ← read_u32
  request_id ← read_u32
  sender_id ← read_u16
  type_and_status ← read_u8
  func_id ← read_u8
  pure (record {
    total_len = total_len;
    request_id = request_id;
    sender_id = sender_id;
    type = type_and_status / 16;
    status = type_and_status % 16;
    func_id = func_id;
  })

-- The checks of the header read.
unfoldable pub validated : Header → Parsed Header
validated h = if ltb h.total_len header_size || ltb max_total_len h.total_len then fail else ok h

-- `rpc_unpack_header`
unfoldable pub unpack_header : List ℕ → Parsed Header
unfolding read_header validated
unpack_header buffer = elim (read_header buffer) [
  | ok (h, rest) ↦ validated h
  | fail ↦ fail
  | fault ↦ fault
]

-- The fields fit their types, the type and the status their halves of a byte.
pub record IsHeader (h : Header) : Type 0 where
  pub total_len : h.total_len < 2 ^ 32
  pub request_id : h.request_id < 2 ^ 32
  pub sender_id : h.sender_id < 2 ^ 16

abbrev pub halves : Header → Header
halves h = record h { type = h.type % 16; status = h.status % 16 }

Decodes-read_header : (h : Header) → IsHeader h → Decodes read_header (halves h) (header_bytes h)
unfolding read_header header_bytes
Decodes-read_header h valid =
    let byte = type_status_byte h.type h.status in
    let high : byte / 16 ≡ h.type % 16 = omega arith in
    let low : byte % 16 ≡ h.status % 16 = omega arith in
    let split : record h { type = byte / 16; status = byte % 16 } ≡ halves h =
      ap (λ t. record h { type = t; status = byte % 16 }) high
      ∙ ap (λ s. record h { type = h.type % 16; status = s }) low in
    subst (λ v. Decodes read_header v (header_bytes h)) split
      (Decodes-bind _ (Decodes-read_u32 h.total_len valid.total_len) (
        Decodes-bind _ (Decodes-read_u32 h.request_id valid.request_id) (
          Decodes-bind _ (Decodes-read_u16 h.sender_id valid.sender_id)
            (Decodes-bind _ (Decodes-read_u8 byte) (Decodes-map _ (Decodes-read_u8 h.func_id))))))

-- A message shorter than 4 GiB whose ids fit their types is packed with its length in front, and its
-- header is read back, with the type and the status cut to four bits each, whatever payload follows;
-- but where the message is longer than 100 MiB, the header that was packed is refused.
pub unpack-pack :
    (node_id request_id type status func_id : ℕ) (payload : List ℕ)
    → request_id < 2 ^ 32
    → node_id < 2 ^ 16
    → header_size + length payload < 2 ^ 32
    → unpack_header (pack_message node_id request_id type status func_id payload).1 ≡ (
        if ltb max_total_len (header_size + length payload)
        then fail
        else ok (record {
          total_len = header_size + length payload;
          request_id = request_id;
          sender_id = node_id;
          type = type % 16;
          status = status % 16;
          func_id = func_id;
        }))
unfolding unpack_header pack_message validated
unpack-pack node_id request_id type status func_id payload small_id small_node small =
    let n = header_size + length payload in
    let whole : n % 2 ^ 32 ≡ n = omega arith in
    let h : Header = record {
      total_len = n;
      request_id = request_id;
      sender_id = node_id;
      type = type;
      status = status;
      func_id = func_id;
    } in
    let read =
      (Decodes-read_header h
          (record { total_len = small; request_id = small_id; sender_id = small_node })).runs
        payload in
    let long_enough : ltb n header_size ≡ false = ground arith in
    rw (whole, read, unpack_header, long_enough) refl

Takes-read_header : Takes 12 read_header
unfolding read_header
Takes-read_header = Takes-bind Takes-read_u32 λ _. Takes-bind Takes-read_u32 λ _.
    Takes-bind Takes-read_u16
      λ _. Takes-bind Takes-read_u8 λ _. Takes-bind Takes-read_u8 λ _. Takes-pure _

-- A header that is read from a buffer of at least 12 bytes is refused, or states a length from 12
-- bytes to 100 MiB.
pub unpack_header-Returns :
    (buffer : List ℕ)
    → header_size ≤ length buffer
    → Returns
        (λ h. (header_size ≤ h.total_len) × (h.total_len ≤ max_total_len))
        (unpack_header buffer)
unfolding unpack_header validated
unpack_header-Returns buffer l =
    let (h, rest, e, _) = Takes-read_header.runs buffer l in
    elim (Bool-cases (ltb h.total_len header_size || ltb max_total_len h.total_len)) [
      | inl bad ↦ rw (e, unpack_header, bad) (Returns-fail _)
      | inr good ↦ rw (e, unpack_header, good) (Returns-ok h (ground arith, ground arith))
    ]

Leads-read_header : Leads 12 read_header
unfolding read_header
Leads-read_header = Leads-bind Leads-read_u32 λ _. Leads-bind Leads-read_u32 λ _.
    Leads-bind Leads-read_u16
      λ _. Leads-bind Leads-read_u8 λ _. Leads-bind Leads-read_u8 λ _. Leads-pure _

-- A header that is in the buffer is read, or refused, whatever bytes follow it.
pub unpack_header-append :
    (xs : List ℕ)
    → header_size ≤ length xs
    → (p : Parsed Header) × (p ≢ fault) × ((ys : List ℕ) → unpack_header (xs ++ ys) ≡ p)
unfolding unpack_header validated
unpack_header-append xs l =
    let (h, rest, _, e) = Leads-read_header.runs xs l in
    (
      validated h,
      elim (Bool-cases (ltb h.total_len header_size || ltb max_total_len h.total_len)) [
        | inl bad ↦ rw bad (λ e. cc)
        | inr good ↦ rw good (λ e. cc)
      ],
      λ ys. rw (unpack_header, e ys) refl,
    )

-- What follows a header makes no difference to it.
pub unpack_header-front :
    (xs ys zs : List ℕ)
    → header_size ≤ length xs
    → unpack_header (xs ++ ys) ≡ unpack_header (xs ++ zs)
unpack_header-front xs ys zs l = let (p, _, e) = unpack_header-append xs l in e ys ∙ sym (e zs)
