-- ===== src/Config/Lines.antt =====
-- The lines of an INI file as src/config/config.c reads them.
use e_roole.Prelude.{
  ℕ, zero, suc, ◌-◌, ◌≤◌, ◌<◌, ◌≡◌, ◌≢◌, refl, sym, ap, subst, ◌∙◌, ◌||◌, true, false, List, [],
  ◌∷◌, ◌++◌, none, some, length, length-append, take, append_assoc, append-nil, All, ne→==, ◌==◌,
  arith,
}
use e_roole.Config.Text.{is_space, skip_spaces, drop_trailing, trim, split_at}
use e_roole.Config.Load.{
  RooleConfig, is_comment, is_section, parse_key_value, with_entry, load_line, line_room,
  file_lines,
}

-- No character of the text is `c`.
abbrev pub Lacks : ℕ → List ℕ → Type 0
Lacks c s = All (λ x. x ≢ c) s

-- A text with no white space at either end.
pub record IsTrimmed (s : List ℕ) : Type 0 where
  pub front : skip_spaces s ≡ s
  pub back : drop_trailing s ≡ s

-- A key, whose first character neither starts a comment nor a section.
pub record IsKey (key : List ℕ) : Type 0 where
  pub first : ℕ
  pub others : List ℕ
  pub parts : key ≡ first ∷ others
  pub starts : (is_space first || ((first == 59) || ((first == 35) || (first == 91)))) ≡ false
  pub back : drop_trailing key ≡ key
  pub no_equals : Lacks 61 key
  pub no_newline : Lacks 10 key
  pub short : length key < 255

pub record IsValue (value : List ℕ) : Type 0 where
  pub trimmed : IsTrimmed value
  pub no_newline : Lacks 10 value
  pub short : length value < 255

pub record IsName (name : List ℕ) : Type 0 where
  pub no_bracket : Lacks 93 name
  pub no_newline : Lacks 10 name
  pub short : length name ≤ 63

-- The lines `key = value` and `[name]`
abbrev pub entry_line : List ℕ × List ℕ → List ℕ
entry_line (key, value) = key ++ (32 ∷ 61 ∷ 32 ∷ value)

abbrev pub section_line : List ℕ → List ℕ
section_line name = 91 ∷ (name ++ (93 ∷ []))

split_at-append : (c : ℕ) (a b : List ℕ) → Lacks c a → split_at c (a ++ (c ∷ b)) ≡ some (a, b)
unfolding split_at
split_at-append c [] b h = let same : (c == c) ≡ true = ground arith in rw same refl
split_at-append c (x ∷ a) b h =
    let other = ne→== x c h.0 in rw (other, split_at-append c a b h.1) refl

drop_trailing-space : (s : List ℕ) → drop_trailing (s ++ (32 ∷ [])) ≡ drop_trailing s
unfolding drop_trailing
drop_trailing-space [] = refl
drop_trailing-space (c ∷ s) = rw (drop_trailing-space s) refl

pub Lacks-append : (c : ℕ) (a b : List ℕ) → Lacks c a → Lacks c b → Lacks c (a ++ b)
Lacks-append c [] b h k = k
Lacks-append c (x ∷ a) b h k = (h.0, Lacks-append c a b h.1 k)

take-all : (n : ℕ) (s : List ℕ) → length s ≤ n → take n s ≡ s
take-all zero [] h = refl
take-all (suc n) [] h = refl
take-all zero (x ∷ s) h = absurd (omega arith)
take-all (suc n) (x ∷ s) h = ap (◌∷◌ x) (take-all n s (omega arith))

solid-is_comment :
    (c : ℕ) (s : List ℕ)
    → (is_space c || ((c == 59) || ((c == 35) || (c == 91)))) ≡ false
    → is_comment (c ∷ s) ≡ false
unfolding is_comment skip_spaces
solid-is_comment c s h = let solid : is_space c ≡ false = ground arith in rw solid (ground arith)

solid-is_section :
    (c : ℕ) (s : List ℕ)
    → (is_space c || ((c == 59) || ((c == 35) || (c == 91)))) ≡ false
    → is_section 63 (c ∷ s) ≡ none
unfolding is_section skip_spaces
solid-is_section c s h =
    let solid : is_space c ≡ false = ground arith in
    let bare : (c == 91) ≡ false = ground arith in rw (solid, is_section, bare) refl

trim-key : (key : List ℕ) → IsKey key → trim (key ++ (32 ∷ [])) ≡ key
unfolding trim skip_spaces
trim-key key k =
    let starts = k.starts in
    let solid : is_space k.first ≡ false = ground arith in
    let front : skip_spaces (key ++ (32 ∷ [])) ≡ key ++ (32 ∷ []) =
      subst (λ s. skip_spaces (s ++ (32 ∷ [])) ≡ s ++ (32 ∷ [])) (sym k.parts) (rw solid refl) in
    ap drop_trailing front ∙ (drop_trailing-space key ∙ k.back)

trim-value : (value : List ℕ) → IsTrimmed value → trim (32 ∷ value) ≡ value
unfolding trim skip_spaces
trim-value value v = ap drop_trailing v.front ∙ v.back

-- A line `key = value` gives its key and value.
parse_key_value-entry_line :
    (key value : List ℕ)
    → IsKey key
    → IsValue value
    → parse_key_value (entry_line (key, value)) ≡ some (key, value)
unfolding parse_key_value
parse_key_value-entry_line key value k v =
    let line = key ++ (32 ∷ []) in
    let at : split_at 61 (entry_line (key, value)) ≡ some (line, 32 ∷ value) =
      ap (split_at 61) (sym (append_assoc key (32 ∷ []) (61 ∷ 32 ∷ value)))
      ∙ split_at-append 61 line (32 ∷ value)
          (Lacks-append 61 key (32 ∷ []) k.no_equals ((λ e. absurd (omega arith)), tt)) in
    let whole : trim (take 255 line) ≡ key =
      ap trim (take-all 255 line (omega (arith, k.short, length-append key (32 ∷ []))))
      ∙ trim-key key k in
    let rest : trim (take 255 (32 ∷ value)) ≡ value =
      ap trim (take-all 255 (32 ∷ value) (omega (arith, v.short))) ∙ trim-value value v.trimmed in
    rw (at, parse_key_value) cc

pub load_line-entry_line :
    (section key value : List ℕ) (config : RooleConfig)
    → IsKey key
    → IsValue value
    → load_line (entry_line (key, value)) section config
      ≡ (section, with_entry section key value config)
unfolding load_line
load_line-entry_line section key value config k v =
    let line = k.others ++ (32 ∷ 61 ∷ 32 ∷ value) in
    let same : entry_line (key, value) ≡ k.first ∷ line = ap (λ s. entry_line (s, value)) k.parts in
    let plain =
      subst (λ s. is_comment s ≡ false) (sym same) (solid-is_comment k.first line k.starts) in
    let inside =
      subst (λ s. is_section 63 s ≡ none) (sym same) (solid-is_section k.first line k.starts) in
    rw (plain, load_line, inside, parse_key_value-entry_line key value k v) refl

pub load_line-section_line :
    (section name : List ℕ) (config : RooleConfig)
    → IsName name
    → load_line (section_line name) section config ≡ (name, config)
unfolding load_line is_comment is_section skip_spaces
load_line-section_line section name config h =
    let found = split_at-append 93 name [] h.no_bracket in
    let cut = take-all 63 name h.short in rw (found, cut) refl

-- A line and its newline are read off the file.
pub file_lines-append :
    (room : ℕ) (cur line rest : List ℕ)
    → Lacks 10 line
    → length line < room
    → file_lines room cur (line ++ (10 ∷ rest)) ≡ (cur ++ line) ∷ file_lines line_room [] rest
unfolding file_lines
file_lines-append room cur [] rest h small =
    ap (λ s. s ∷ file_lines line_room [] rest) (sym (append-nil cur))
file_lines-append room cur (c ∷ line) rest h small =
    let other = ne→== c 10 h.0 in
    let wide : (room == 1) ≡ false = ground arith in
    rw (other, file_lines, wide)
      (file_lines-append (room - 1) (cur ++ (c ∷ [])) line rest h.1 (omega arith)
        ∙ ap (λ s. s ∷ file_lines line_room [] rest) (append_assoc cur (c ∷ []) line))
