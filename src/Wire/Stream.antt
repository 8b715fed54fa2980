-- ===== src/Wire/Stream.antt =====
-- Readers of a fixed number of bytes, which read the same where more bytes follow.
use e_roole.Prelude.{ℕ, ◌+◌, ◌≤◌, ◌≡◌, refl, List, [], ◌∷◌, ◌++◌, length, arith}
use e_roole.Wire.Reader.{ok, Reader, ◌>>=◌, pure, read_u8}
use e_roole.Wire.Word.{read_u16, read_u32}

pub record Leads {ℓ} {A : Type ℓ} (n : ℕ) (r : Reader A) : Type ℓ where
  pub runs :
      (xs : List ℕ)
      → n ≤ length xs
      → (v : A) × (rest : List ℕ) × (length rest + n ≡ length xs)
        × ((ys : List ℕ) → r (xs ++ ys) ≡ ok (v, rest ++ ys))

pub Leads-bind {ℓ κ} :
    {A : Type ℓ} {B : Type κ} {r : Reader A} {f : A → Reader B} {n m : ℕ}
    → Leads n r
    → ((v : A) → Leads m (f v))
    → Leads (n + m) (r >>= f)
Leads-bind {n = n} {m = m} t u = record {
  runs = λ xs h.
      let (v, rest, l, e) = t.runs xs (omega arith) in
      let (w, rest', l', e') = (u v).runs rest (omega arith) in
      (w, rest', omega arith, λ ys. rw (e ys, ◌>>=◌) (e' ys));
}

pub Leads-pure {ℓ} : {A : Type ℓ} (a : A) → Leads 0 (pure a)
Leads-pure a = record { runs = λ xs h. (a, xs, omega arith, λ ys. refl) }

pub Leads-read_u8 : Leads 1 read_u8
unfolding read_u8
Leads-read_u8 = record { runs = go }
  where
    go :
        (xs : List ℕ)
        → 1 ≤ length xs
        → (v : ℕ) × (rest : List ℕ) × (length rest + 1 ≡ length xs)
          × ((ys : List ℕ) → read_u8 (xs ++ ys) ≡ ok (v, rest ++ ys))
    go [] h = absurd (omega arith)
    go (b ∷ rest) h = (b, rest, omega arith, λ ys. refl)

pub Leads-read_u16 : Leads 2 read_u16
unfolding read_u16
Leads-read_u16 = Leads-bind Leads-read_u8 λ hi. Leads-bind Leads-read_u8 λ lo. Leads-pure _

pub Leads-read_u32 : Leads 4 read_u32
unfolding read_u32
Leads-read_u32 = Leads-bind Leads-read_u16 λ hi. Leads-bind Leads-read_u16 λ lo. Leads-pure _
