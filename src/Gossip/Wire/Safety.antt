-- ===== src/Gossip/Wire/Safety.antt =====
-- The reads of gossip_message_deserialize of src/gossip/protocol/gossip_serialization.c.
use e_roole.Prelude.{
  ℕ, zero, suc, ◌≤◌, ◌<◌, ◌≡◌, ◌⊎◌, inl, inr, refl, List, [], ◌∷◌, length, ltb, not, ◌==◌, min,
  arith, Bool-cases,
}
use e_roole.Wire.Word.{Takes-read_u16, Takes-read_u64}
use e_roole.Wire.Reader.{ok, ◌>>=◌, pure, Takes, Takes-bind, Takes-pure, Takes-read_u8}
use e_roole.Wire.Text.{Takes-read_text}
use e_roole.Wire.Guarded.{
  Outcome-bind, Returns, checked-Returns, Guarded, Guarded-bind, Guarded-pure, Guarded-test,
}
use e_roole.Gossip.Types.{Message, Update, max_updates}
use e_roole.Gossip.Wire.{
  read_update, read_updates, read_header, with_updates, read_message, deserialize,
}

pub Takes-read_update : Takes 40 read_update
unfolding read_update
Takes-read_update = Takes-bind Takes-read_u16 λ _. Takes-bind Takes-read_u8 λ _.
    Takes-bind Takes-read_u8 λ _. Takes-bind (Takes-read_text 16 15) λ _.
      Takes-bind Takes-read_u16 λ _.
        Takes-bind Takes-read_u16
          λ _. Takes-bind Takes-read_u64 λ _. Takes-bind Takes-read_u64 λ _. Takes-pure _

read_updates-total :
    (n : ℕ) (xs : List ℕ)
    → (us : List Update) × (rest : List ℕ) × (read_updates n xs ≡ ok (us, rest)) × (length us ≤ n)
unfolding read_updates
read_updates-total zero xs = ([], xs, refl, omega arith)
read_updates-total (suc n) xs = elim (Bool-cases (ltb (length xs) 40)) [
  | inl short ↦ ([], xs, rw short refl, omega arith)
  | inr long ↦
      let (u, rest, e, l) = Takes-read_update.runs xs (ground arith) in
      let (us, rest', e', l') = read_updates-total n rest in
      (u ∷ us, rest', rw (long, e, ◌>>=◌, e', ◌>>=◌, pure) refl, omega arith)
]

-- The updates counted are those held, or more than the array has room for are counted.
abbrev pub Counted : Message → Type 0
Counted m =
    (m.version ≡ 1)
    × (length m.updates ≤ max_updates)
    × ((length m.updates ≡ m.num_updates)
        ⊎ ((length m.updates ≡ max_updates) × (max_updates < m.num_updates)))

with_updates-Counted :
    (m : Message) (us : List Update)
    → m.version ≡ 1
    → length us ≤ min m.num_updates max_updates
    → Counted (with_updates m us)
with_updates-Counted m us v l =
    elim (Bool-cases (ltb (length us) (min m.num_updates max_updates))) [
      | inl early ↦ rw early (v, omega arith, inl refl)
      | inr whole ↦ rw whole (v, omega arith, ground arith)
    ]

Guarded-read_header : (n : ℕ) → 16 ≤ n → Guarded n 0 (λ m. m.version ≡ 1) read_header
unfolding read_header
Guarded-read_header n h = Guarded-bind Takes-read_u8 (omega arith) λ version.
    Guarded-bind Takes-read_u8 (omega arith) λ _. Guarded-test (not (version == 1)) λ is_one.
      Guarded-bind Takes-read_u16 (omega arith) λ _. Guarded-bind Takes-read_u16 (omega arith) λ _.
        Guarded-bind Takes-read_u64 (omega arith) λ _.
          Guarded-bind Takes-read_u8 (omega arith)
            λ _. Guarded-bind Takes-read_u8 (omega arith) λ _. Guarded-pure _ _ (ground arith)

-- No buffer, whatever number of updates it states, makes gossip_message_deserialize read past its
-- end. A message that it accepts has version 1 and holds at most 10 updates, which are as many as it
-- counts, or else it holds 10 and counts more.
pub deserialize-Returns : (buffer : List ℕ) → Returns Counted (deserialize buffer)
unfolding deserialize read_message
deserialize-Returns buffer = checked-Returns 16 read_message Counted buffer λ h. record {
  runs = λ xs e.
      Outcome-bind (λ m. m.version ≡ 1) Counted (read_header xs) _
        ((Guarded-read_header (length buffer) h).runs xs e)
        λ m rest v.
          let (us, rest', e', l) = read_updates-total (min m.num_updates max_updates) rest in
          rw (e', ◌>>=◌, pure) (with_updates-Counted m us v l);
}
