-- ===== src/Config/Text.antt =====
-- The functions on strings of src/config/config.c, and what it uses of the C library in the C
-- locale. A string is the list of its characters before the NUL.
use e_roole.Prelude.{
  ℕ, zero, suc, ◌+◌, ◌-◌, ◌*◌, ◌%◌, ◌^◌, ltb, ◌&&◌, ◌||◌, Bool, true, false, List, [], ◌∷◌, Option,
  none, some, leb, ◌==◌, if◌then◌else◌,
}

-- `isspace`, `isalnum` and `tolower`
abbrev pub is_space : ℕ → Bool
is_space c = (c == 32) || (leb 9 c && leb c 13)

abbrev pub is_digit : ℕ → Bool
is_digit c = leb 48 c && leb c 57

abbrev pub is_alnum : ℕ → Bool
is_alnum c = is_digit c || ((leb 65 c && leb c 90) || (leb 97 c && leb c 122))

abbrev pub to_lower : ℕ → ℕ
to_lower c = if leb 65 c && leb c 90 then c + 32 else c

-- `strcasecmp(a, b) == 0`
unfoldable pub same_word : List ℕ → List ℕ → Bool
same_word [] [] = true
same_word [] (b ∷ bs) = false
same_word (a ∷ xs) [] = false
same_word (a ∷ xs) (b ∷ bs) = (to_lower a == to_lower b) && same_word xs bs

unfoldable pub skip_spaces : List ℕ → List ℕ
skip_spaces [] = []
skip_spaces (c ∷ cs) = if is_space c then skip_spaces cs else c ∷ cs

abbrev kept : ℕ → List ℕ → List ℕ
kept c [] = if is_space c then [] else c ∷ []
kept c (d ∷ ds) = c ∷ d ∷ ds

unfoldable pub drop_trailing : List ℕ → List ℕ
drop_trailing [] = []
drop_trailing (c ∷ cs) = kept c (drop_trailing cs)

-- `trim_whitespace`
unfoldable pub trim : List ℕ → List ℕ
trim s = drop_trailing (skip_spaces s)

-- `strchr`: what stands before the first `c`, and what follows it.
unfoldable pub split_at : ℕ → List ℕ → Option (List ℕ × List ℕ)
split_at c [] = none
split_at c (x ∷ xs) =
    if x == c
    then some ([], xs)
    else (elim (split_at c xs) [ none ↦ none | some (before, after) ↦ some (x ∷ before, after) ])

-- An `int`. `negsuc n` is -(n + 1).
pub data ℤ : Type 0 where
  pos : ℕ → ℤ
  negsuc : ℕ → ℤ

unfoldable pub digits : ℕ → List ℕ → ℕ
digits acc [] = acc
digits acc (c ∷ cs) = if is_digit c then digits (acc * 10 + (c - 48)) cs else acc

abbrev negated : ℕ → ℤ
negated zero = pos 0
negated (suc n) = negsuc n

-- The conversion of a `long` to `int`, which keeps 32 bits: of `n`, and of `-n`.
abbrev pub int_pos : ℕ → ℤ
int_pos n = let low = n % 2 ^ 32 in if ltb low (2 ^ 31) then pos low else negsuc (2 ^ 32 - 1 - low)

abbrev pub int_neg : ℕ → ℤ
int_neg n = let low = n % 2 ^ 32 in if leb low (2 ^ 31) then negated low else pos (2 ^ 32 - low)

-- `strtol` gives LONG_MAX or LONG_MIN for a number that a `long` cannot hold.
abbrev pub long_pos : ℕ → ℕ
long_pos n = if ltb n (2 ^ 63) then n else 2 ^ 63 - 1

abbrev pub long_neg : ℕ → ℕ
long_neg n = if leb n (2 ^ 63) then n else 2 ^ 63

abbrev signed : List ℕ → ℤ
signed [] = pos 0
signed (c ∷ cs) =
    if c == 45
    then int_neg (long_neg (digits 0 cs))
    else if c == 43
    then int_pos (long_pos (digits 0 cs))
    else int_pos (long_pos (digits 0 (c ∷ cs)))

-- `atoi`, which is `(int) strtol(s, NULL, 10)` in glibc, where a `long` has 64 bits.
unfoldable pub atoi : List ℕ → ℤ
unfolding skip_spaces digits
atoi s = signed (skip_spaces s)

-- The cast to `uint16_t`
abbrev pub to_u16 : ℤ → ℕ
to_u16 (pos n) = n % 2 ^ 16
to_u16 (negsuc n) = 2 ^ 16 - 1 - n % 2 ^ 16
