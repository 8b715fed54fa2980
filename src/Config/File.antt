-- ===== src/Config/File.antt =====
-- A whole INI file as src/config/config.c loads it.
use e_roole.Prelude.{
  ℕ, ◌<◌, ◌≡◌, refl, ap, ◌∙◌, List, [], ◌∷◌, ◌++◌, length, length-append, All, arith,
}
use e_roole.Config.Load.{
  RooleConfig, blank_config, with_entry, load_lines, line_room, file_lines, checked, load_from_file,
}
use e_roole.Config.Lines.{
  Lacks, Lacks-append, IsKey, IsValue, IsName, entry_line, section_line, load_line-entry_line,
  load_line-section_line, file_lines-append,
}

-- A section: its name, and its keys with their values.
abbrev pub Section : Type 0
Section = List ℕ × List (List ℕ × List ℕ)

abbrev pub IsEntry : List ℕ × List ℕ → Type 0
IsEntry e = IsKey e.0 × IsValue e.1

abbrev pub IsSection : Section → Type 0
IsSection s = IsName s.0 × All IsEntry s.1

abbrev entry_lines : List (List ℕ × List ℕ) → List (List ℕ) → List (List ℕ)
entry_lines [] rest = rest
entry_lines (e ∷ es) rest = entry_line e ∷ entry_lines es rest

abbrev section_lines : List Section → List (List ℕ)
section_lines [] = []
section_lines (s ∷ ss) = section_line s.0 ∷ entry_lines s.1 (section_lines ss)

abbrev text_of : List (List ℕ) → List ℕ
text_of [] = []
text_of (line ∷ lines) = line ++ (10 ∷ text_of lines)

-- The file with these sections.
abbrev pub file_of : List Section → List ℕ
file_of ss = text_of (section_lines ss)

-- What the sections say, each key in its turn.
abbrev pub with_entries : List ℕ → List (List ℕ × List ℕ) → RooleConfig → RooleConfig
with_entries name [] config = config
with_entries name (e ∷ es) config = with_entries name es (with_entry name e.0 e.1 config)

abbrev pub with_sections : List Section → RooleConfig → RooleConfig
with_sections [] config = config
with_sections (s ∷ ss) config = with_sections ss (with_entries s.0 s.1 config)

abbrev IsLine : List ℕ → Type 0
IsLine line = Lacks 10 line × (length line < line_room)

file_lines-text_of :
    (lines : List (List ℕ)) → All IsLine lines → file_lines line_room [] (text_of lines) ≡ lines
unfolding file_lines
file_lines-text_of [] h = refl
file_lines-text_of (line ∷ lines) h =
    file_lines-append line_room [] line (text_of lines) h.0.0 h.0.1
    ∙ ap (◌∷◌ line) (file_lines-text_of lines h.1)

entry_line-IsLine : (e : List ℕ × List ℕ) → IsEntry e → IsLine (entry_line e)
entry_line-IsLine e (k, v) = (
  Lacks-append 10 e.0 (32 ∷ 61 ∷ 32 ∷ e.1) k.no_newline (
    (λ h. absurd (omega arith)),
    ((λ h. absurd (omega arith)), ((λ h. absurd (omega arith)), v.no_newline)),
  ),
  omega (arith, k.short, v.short, length-append e.0 (32 ∷ 61 ∷ 32 ∷ e.1)),
)

section_line-IsLine : (name : List ℕ) → IsName name → IsLine (section_line name)
section_line-IsLine name h = (
  (
    (λ e. absurd (omega arith)),
    Lacks-append 10 name (93 ∷ []) h.no_newline ((λ e. absurd (omega arith)), tt),
  ),
  omega (arith, h.short, length-append name (93 ∷ [])),
)

entry_lines-IsLine :
    (es : List (List ℕ × List ℕ)) (rest : List (List ℕ))
    → All IsEntry es
    → All IsLine rest
    → All IsLine (entry_lines es rest)
entry_lines-IsLine [] rest h k = k
entry_lines-IsLine (e ∷ es) rest h k = (entry_line-IsLine e h.0, entry_lines-IsLine es rest h.1 k)

section_lines-IsLine : (ss : List Section) → All IsSection ss → All IsLine (section_lines ss)
section_lines-IsLine [] h = tt
section_lines-IsLine (s ∷ ss) h =
    (section_line-IsLine s.0 h.0.0, entry_lines-IsLine s.1 _ h.0.1 (section_lines-IsLine ss h.1))

load_lines-entry_lines :
    (name : List ℕ) (es : List (List ℕ × List ℕ)) (rest : List (List ℕ)) (config : RooleConfig)
    → All IsEntry es
    → load_lines (entry_lines es rest) name config
      ≡ load_lines rest name (with_entries name es config)
unfolding load_lines
load_lines-entry_lines name [] rest config h = refl
load_lines-entry_lines name (e ∷ es) rest config h =
    rw (load_line-entry_line name e.0 e.1 config h.0.0 h.0.1, load_lines)
      (load_lines-entry_lines name es rest (with_entry name e.0 e.1 config) h.1)

load_lines-section_lines :
    (section : List ℕ) (ss : List Section) (config : RooleConfig)
    → All IsSection ss
    → load_lines (section_lines ss) section config ≡ with_sections ss config
unfolding load_lines
load_lines-section_lines section [] config h = refl
load_lines-section_lines section (s ∷ ss) config h =
    rw (load_line-section_line section s.0 config h.0.0, load_lines)
      (load_lines-entry_lines s.0 s.1 (section_lines ss) config h.0.1
        ∙ load_lines-section_lines s.0 ss (with_entries s.0 s.1 config) h.1)

-- A file of sections, each a line `[name]` and lines `key = value`, loads to what its entries say one
-- after the other, or fails in the checks at the end. No line has a newline in it; a name has at most
-- 63 characters and no `]`, a key fewer than 255, no `=`, no white space at its ends, and does not
-- start like a comment or a section; a value has fewer than 255 and no white space at its ends.
pub load_from_file-file_of :
    (ss : List Section)
    → All IsSection ss
    → load_from_file (file_of ss) ≡ checked (with_sections ss blank_config)
unfolding load_from_file
load_from_file-file_of ss h =
    ap (λ lines. checked (load_lines lines [] blank_config))
      (file_lines-text_of (section_lines ss) (section_lines-IsLine ss h))
    ∙ ap checked (load_lines-section_lines [] ss blank_config h)
