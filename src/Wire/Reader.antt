-- ===== src/Wire/Reader.antt =====
-- A deserialiser is a function of the bytes that it has not read yet. `fault` stands for a read
-- past the end of the buffer, which C does not detect; `fail` for the source's error return.
use e_roole.Prelude.{
  ℕ, zero, suc, ◌+◌, ◌≤◌, ◌≡◌, ◌≢◌, refl, ap, inl, inr, List, [], ◌∷◌, ◌++◌, length, drop,
  drop-append, Bool, true, false, not, ◌==◌, length-append, arith, append_assoc, append-nil, ltb,
  le→ltb, Bool-cases, if◌then◌else◌,
}

pub data Parsed {ℓ} (A : Type ℓ) : Type ℓ where
  ok : A → Parsed A
  fail : Parsed A
  fault : Parsed A

abbrev pub Reader {ℓ} : Type ℓ → Type ℓ
Reader A = List ℕ → Parsed (A × List ℕ)

infixl 5 ◌>>=◌
abbrev pub ◌>>=◌ {ℓ κ} : {A : Type ℓ} {B : Type κ} → Reader A → (A → Reader B) → Reader B
◌>>=◌ r f xs = elim (r xs) [ ok (a, rest) ↦ f a rest | fail ↦ fail | fault ↦ fault ]

abbrev pub pure {ℓ} : {A : Type ℓ} → A → Reader A
pure a xs = ok (a, xs)

-- What a function over a whole buffer returns: the bytes left over are dropped.
abbrev pub run {ℓ} : {A : Type ℓ} → Reader A → List ℕ → Parsed A
run r xs = elim (r xs) [ ok (a, rest) ↦ ok a | fail ↦ fail | fault ↦ fault ]

-- `buffer[offset++]`
unfoldable pub read_u8 : Reader ℕ
read_u8 [] = fault
read_u8 (b ∷ rest) = ok (b, rest)

-- A truth value is written `b ? 1 : 0` and read `buffer[offset++] != 0`.
unfoldable pub write_flag : Bool → List ℕ
write_flag b = (if b then 1 else 0) ∷ []

unfoldable pub read_flag : Reader Bool
unfolding read_u8
read_flag = do b ← read_u8; pure (not (b == 0))

-- `memcpy(dst, buffer + offset, n)`
unfoldable pub read_bytes : ℕ → Reader (List ℕ)
read_bytes zero xs = ok ([], xs)
read_bytes (suc n) [] = fault
read_bytes (suc n) (x ∷ xs) = elim (read_bytes n xs) [
  | ok (ys, rest) ↦ ok (x ∷ ys, rest)
  | fail ↦ fail
  | fault ↦ fault
]

-- `r` reads `v` from the front of any buffer that begins with `bs`, and takes just those bytes.
pub record Decodes {ℓ} {A : Type ℓ} (r : Reader A) (v : A) (bs : List ℕ) : Type ℓ where
  pub runs : (rest : List ℕ) → r (bs ++ rest) ≡ ok (v, rest)

-- `r` takes `n` bytes, and succeeds wherever that many are left.
pub record Takes {ℓ} {A : Type ℓ} (n : ℕ) (r : Reader A) : Type ℓ where
  pub runs :
      (xs : List ℕ)
      → n ≤ length xs
      → (v : A) × (rest : List ℕ) × (r xs ≡ ok (v, rest)) × (length rest + n ≡ length xs)

module _ {ℓ κ} {A : Type ℓ} {B : Type κ} where
  pub Decodes-bind :
      {r : Reader A} (f : A → Reader B) {v : A} {w : B} {bs cs : List ℕ}
      → Decodes r v bs
      → Decodes (f v) w cs
      → Decodes (r >>= f) w (bs ++ cs)
  Decodes-bind f {bs = bs} {cs = cs} d e = record {
    runs = λ rest. rw (append_assoc bs cs rest, d.runs (cs ++ rest), ◌>>=◌) (e.runs rest);
  }

  pub Takes-bind :
      {r : Reader A} {f : A → Reader B} {n m : ℕ}
      → Takes n r
      → ((v : A) → Takes m (f v))
      → Takes (n + m) (r >>= f)
  Takes-bind {n = n} {m = m} t u = record {
    runs = λ xs h.
        let (v, rest, e, l) = t.runs xs (omega arith) in
        let (w, rest', e', l') = (u v).runs rest (omega arith) in
        (w, rest', rw (e, ◌>>=◌) e', omega arith);
  }

pub Decodes-map {ℓ κ} :
    {A : Type ℓ} {B : Type κ} {r : Reader A} (f : A → B) {v : A} {bs : List ℕ}
    → Decodes r v bs
    → Decodes (r >>= λ a. pure (f a)) (f v) bs
Decodes-map f d = record { runs = λ rest. rw (d.runs rest, ◌>>=◌) refl }

pub Decodes-pure {ℓ} : {A : Type ℓ} (a : A) → Decodes (pure a) a []
Decodes-pure a = record { runs = λ rest. refl }

pub Takes-pure {ℓ} : {A : Type ℓ} (a : A) → Takes 0 (pure a)
Takes-pure a = record { runs = λ xs h. (a, xs, refl, omega arith) }

pub Decodes-read_u8 : (b : ℕ) → Decodes read_u8 b (b ∷ [])
unfolding read_u8
Decodes-read_u8 b = record { runs = λ rest. refl }

pub Takes-read_u8 : Takes 1 read_u8
unfolding read_u8
Takes-read_u8 = record { runs = go }
  where
    go :
        (xs : List ℕ)
        → 1 ≤ length xs
        → (v : ℕ) × (rest : List ℕ) × (read_u8 xs ≡ ok (v, rest)) × (length rest + 1 ≡ length xs)
    go [] h = absurd (omega arith)
    go (b ∷ rest) h = (b, rest, refl, omega arith)

pub Decodes-read_flag : (b : Bool) → Decodes read_flag b (write_flag b)
unfolding read_flag write_flag
Decodes-read_flag true = record { runs = λ rest. refl }
Decodes-read_flag false = record { runs = λ rest. refl }

read_bytes_front : (bs rest : List ℕ) → read_bytes (length bs) (bs ++ rest) ≡ ok (bs, rest)
unfolding read_bytes
read_bytes_front [] rest = refl
read_bytes_front (b ∷ bs) rest = rw (read_bytes_front bs rest)

pub Decodes-read_bytes : (bs : List ℕ) → Decodes (read_bytes (length bs)) bs bs
Decodes-read_bytes bs = record { runs = read_bytes_front bs }

pub Takes-read_flag : Takes 1 read_flag
unfolding read_flag
Takes-read_flag = Takes-bind Takes-read_u8 λ b. Takes-pure _

read_bytes_runs :
    (n : ℕ) (xs : List ℕ)
    → n ≤ length xs
    → (v : List ℕ) × (rest : List ℕ) × (read_bytes n xs ≡ ok (v, rest))
      × (length rest + n ≡ length xs)
unfolding read_bytes
read_bytes_runs zero xs h = ([], xs, refl, omega arith)
read_bytes_runs (suc n) [] h = absurd (omega arith)
read_bytes_runs (suc n) (x ∷ xs) h =
    let (v, rest, e, l) = read_bytes_runs n xs (omega arith) in (x ∷ v, rest, rw e, omega arith)

pub Takes-read_bytes : (n : ℕ) → Takes n (read_bytes n)
Takes-read_bytes n = record { runs = read_bytes_runs n }

-- `if (buffer_len < n) return -1;` before reading from the start of the buffer.
abbrev pub checked {ℓ} : {A : Type ℓ} → ℕ → Reader A → List ℕ → Parsed A
checked n r xs = if ltb (length xs) n then fail else run r xs

abbrev pub failing {ℓ} : {A : Type ℓ} → Reader A
failing xs = fail

abbrev pub and_then {ℓ κ} : {A : Type ℓ} {B : Type κ} → Parsed A → (A → Parsed B) → Parsed B
and_then (ok a) f = f a
and_then fail f = fail
and_then fault f = fault

-- `buffer + n`, with a fault where that points past the end.
unfoldable pub advance : ℕ → List ℕ → Parsed (List ℕ)
advance n xs = if ltb (length xs) n then fault else ok (drop n xs)

pub checked-ne-fault {ℓ} :
    {A : Type ℓ} {n : ℕ} {r : Reader A} → Takes n r → (xs : List ℕ) → checked n r xs ≢ fault
checked-ne-fault {n = n} {r = r} t xs = elim (Bool-cases (ltb (length xs) n)) [
  | inl short ↦ rw short (λ e. cc)
  | inr long ↦ let (v, rest, e, l) = t.runs xs (ground arith) in rw (long, e, run) (λ p. cc)
]

pub checked-ok {ℓ} :
    {A : Type ℓ} {r : Reader A} {v : A} {bs : List ℕ} (n : ℕ) (more : List ℕ)
    → Decodes r v bs
    → n ≤ length bs
    → checked n r (bs ++ more) ≡ ok v
checked-ok {bs = bs} n more d h =
    rw (le→ltb (length (bs ++ more)) n (omega (arith, length-append bs more)), d.runs more, run)
      refl

pub Decodes-checked {ℓ} :
    {A : Type ℓ} {r : Reader A} {v : A} {bs : List ℕ} (n : ℕ)
    → Decodes r v bs
    → n ≤ length bs
    → checked n r bs ≡ ok v
Decodes-checked {r = r} {v} {bs} n d h =
    let e : r bs ≡ ok (v, []) = rw append-nil at (d.runs []) in
    rw (le→ltb (length bs) n h, e, run) refl

pub advance-append : (bs rest : List ℕ) → advance (length bs) (bs ++ rest) ≡ ok rest
unfolding advance
advance-append bs rest =
    rw (le→ltb (length (bs ++ rest)) (length bs) (omega (arith, length-append bs rest)))
      (ap ok (drop-append bs rest))
