-- ===== src/Wire/Text.antt =====
-- Fixed-width text fields: memset to zero and strncpy of one byte less, and reading the field back
-- with its last byte forced to NUL. A C string is the list of its characters before the NUL.
use e_roole.Prelude.{
  ℕ, zero, suc, ◌+◌, ◌-◌, ◌≤◌, ◌≡◌, ◌≢◌, refl, ap, subst, List, [], ◌∷◌, ◌++◌, length, take,
  replicate, All, arith, length-append, length-replicate,
}
use e_roole.Wire.Reader.{
  Reader, ◌>>=◌, pure, read_bytes, Decodes, Decodes-map, Decodes-read_bytes, Takes, Takes-bind,
  Takes-pure, Takes-read_bytes,
}

-- The C string at the start of a buffer that a NUL ends.
unfoldable pub c_string : List ℕ → List ℕ
c_string [] = []
c_string (zero ∷ rest) = []
c_string (suc c ∷ rest) = suc c ∷ c_string rest

-- A C string has no NUL before its end.
abbrev pub IsString : List ℕ → Type 0
IsString key = All (λ c. c ≢ 0) key

pub c_string_lem : (key : List ℕ) → IsString key → c_string key ≡ key
unfolding c_string
c_string_lem [] h = refl
c_string_lem (zero ∷ rest) h = absurd (h.0 refl)
c_string_lem (suc c ∷ rest) h = rw (c_string_lem rest h.1) refl

-- `strncpy` of up to `k` bytes into a field of `n` zero bytes.
unfoldable pub text_bytes : ℕ → ℕ → List ℕ → List ℕ
text_bytes n k s = let kept = take k s in kept ++ replicate (n - length kept) 0

-- The first `k` bytes of a field of `n`, up to a NUL.
unfoldable pub read_text : ℕ → ℕ → Reader (List ℕ)
read_text n k = do bytes ← read_bytes n; pure (c_string (take k bytes))

pub take-all : (k : ℕ) (s : List ℕ) → length s ≤ k → take k s ≡ s
take-all zero [] h = refl
take-all zero (x ∷ s) h = absurd (omega arith)
take-all (suc k) [] h = refl
take-all (suc k) (x ∷ s) h = ap (◌∷◌ x) (take-all k s (omega arith))

c_string-zeros : (k n : ℕ) → c_string (take k (replicate n 0)) ≡ []
unfolding c_string
c_string-zeros zero n = refl
c_string-zeros (suc k) zero = refl
c_string-zeros (suc k) (suc n) = refl

-- A string that fits comes back from its field.
c_string-padded :
    (s : List ℕ) (k n : ℕ) → IsString s → length s ≤ k → c_string (take k (s ++ replicate n 0)) ≡ s
unfolding c_string
c_string-padded [] k n h l = c_string-zeros k n
c_string-padded (zero ∷ s) k n h l = absurd (h.0 refl)
c_string-padded (suc c ∷ s) zero n h l = absurd (omega arith)
c_string-padded (suc c ∷ s) (suc k) n h l =
    ap (◌∷◌ (suc c)) (c_string-padded s k n h.1 (omega arith))

length-padded : (n : ℕ) (s : List ℕ) → length s ≤ n → length (s ++ replicate (n - length s) 0) ≡ n
length-padded n s h =
    omega (
      arith,
      length-append s (replicate (n - length s) 0),
      length-replicate {A = ℕ} (n - length s) 0,
    )

pub length-text_bytes :
    (n k : ℕ) (s : List ℕ) → length s ≤ k → k ≤ n → length (text_bytes n k s) ≡ n
unfolding text_bytes
length-text_bytes n k s h l = rw (take-all k s h) (length-padded n s (omega arith))

pub Decodes-read_text :
    (n k : ℕ) (s : List ℕ)
    → IsString s
    → length s ≤ k
    → k ≤ n
    → Decodes (read_text n k) s (text_bytes n k s)
unfolding read_text text_bytes
Decodes-read_text n k s str h l =
    let field = s ++ replicate (n - length s) 0 in
    let size : length field ≡ n = length-padded n s (omega arith) in
    let whole : Decodes (read_bytes n) field field =
      subst (λ m. Decodes (read_bytes m) field field) size (Decodes-read_bytes field) in
    rw (take-all k s h) (
      subst (λ v. Decodes (read_text n k) v field) (c_string-padded s k (n - length s) str h)
        (Decodes-map (λ bytes. c_string (take k bytes)) whole))

pub Takes-read_text : (n k : ℕ) → Takes n (read_text n k)
unfolding read_text
Takes-read_text n k =
    let plain : n + 0 ≡ n = omega arith in
    subst (λ m. Takes m (read_text n k)) plain
      (Takes-bind (Takes-read_bytes n) λ bytes. Takes-pure (c_string (take k bytes)))
