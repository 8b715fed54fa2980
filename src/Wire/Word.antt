-- ===== src/Wire/Word.antt =====
-- The words themselves. A `uintN_t` is a number below 2 ^ N.
use e_roole.Prelude.{
  ℕ, ◌+◌, ◌*◌, ◌/◌, ◌%◌, ◌^◌, ◌<◌, ◌≡◌, refl, subst, List, [], ◌∷◌, ◌++◌, length, arith,
}
use e_roole.Wire.Reader.{
  Reader, ◌>>=◌, pure, read_u8, Decodes, Takes, Decodes-bind, Decodes-map, Decodes-pure,
  Decodes-read_u8, Takes-bind, Takes-pure, Takes-read_u8,
}

unfoldable pub write_u16 : ℕ → List ℕ
write_u16 v = (v / 256) % 256 ∷ v % 256 ∷ []

unfoldable pub write_u32 : ℕ → List ℕ
write_u32 v = write_u16 (v / 2 ^ 16) ++ write_u16 (v % 2 ^ 16)

unfoldable pub write_u64 : ℕ → List ℕ
write_u64 v = write_u32 (v / 2 ^ 32) ++ write_u32 (v % 2 ^ 32)

unfoldable pub read_u16 : Reader ℕ
read_u16 = do hi ← read_u8; lo ← read_u8; pure (hi * 256 + lo)

unfoldable pub read_u32 : Reader ℕ
read_u32 = do hi ← read_u16; lo ← read_u16; pure (hi * 2 ^ 16 + lo)

unfoldable pub read_u64 : Reader ℕ
read_u64 = do hi ← read_u32; lo ← read_u32; pure (hi * 2 ^ 32 + lo)

Decodes-value : {r : Reader ℕ} {v w : ℕ} {bs : List ℕ} → v ≡ w → Decodes r v bs → Decodes r w bs
Decodes-value {r} {bs = bs} e d = subst (λ v. Decodes r v bs) e d

pub Decodes-read_u16 : (v : ℕ) → v < 2 ^ 16 → Decodes read_u16 v (write_u16 v)
unfolding read_u16 write_u16
Decodes-read_u16 v h =
    Decodes-value (omega arith)
      (Decodes-bind _ (Decodes-read_u8 _) (Decodes-bind _ (Decodes-read_u8 _) (Decodes-pure _)))

pub Decodes-read_u32 : (v : ℕ) → v < 2 ^ 32 → Decodes read_u32 v (write_u32 v)
unfolding read_u32 write_u32
Decodes-read_u32 v h = Decodes-value (omega arith) (
    Decodes-bind _ (Decodes-read_u16 _ (omega arith))
      (Decodes-map _ (Decodes-read_u16 _ (omega arith))))

pub Decodes-read_u64 : (v : ℕ) → v < 2 ^ 64 → Decodes read_u64 v (write_u64 v)
unfolding read_u64 write_u64
Decodes-read_u64 v h = Decodes-value (omega arith) (
    Decodes-bind _ (Decodes-read_u32 _ (omega arith))
      (Decodes-map _ (Decodes-read_u32 _ (omega arith))))

pub Takes-read_u16 : Takes 2 read_u16
unfolding read_u16
Takes-read_u16 = Takes-bind Takes-read_u8 λ hi. Takes-bind Takes-read_u8 λ lo. Takes-pure _

pub Takes-read_u32 : Takes 4 read_u32
unfolding read_u32
Takes-read_u32 = Takes-bind Takes-read_u16 λ hi. Takes-bind Takes-read_u16 λ lo. Takes-pure _

pub Takes-read_u64 : Takes 8 read_u64
unfolding read_u64
Takes-read_u64 = Takes-bind Takes-read_u32 λ hi. Takes-bind Takes-read_u32 λ lo. Takes-pure _

pub length-write_u16 : (v : ℕ) → length (write_u16 v) ≡ 2
unfolding write_u16
length-write_u16 v = refl

pub length-write_u32 : (v : ℕ) → length (write_u32 v) ≡ 4
unfolding write_u32 write_u16
length-write_u32 v = refl

pub length-write_u64 : (v : ℕ) → length (write_u64 v) ≡ 8
unfolding write_u64 write_u32 write_u16
length-write_u64 v = refl

abbrev pub IsByte : ℕ → Type 0
IsByte b = b < 256
