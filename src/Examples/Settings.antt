-- ===== src/Examples/Settings.antt =====
-- The configuration of a node.
use e_roole.Prelude.{
  ℕ, ◌≤◌, ◌<◌, ◌≡◌, ◌≢◌, ◌==◌, ◌&&◌, ◌||◌, not, take, false, refl, Bool, true, List, [], ◌∷◌, some,
  length, All, arith,
}
use e_roole.Raft.Datastore.Table.{strings_equal}
use e_roole.Config.Text.{is_space, same_word, skip_spaces, drop_trailing, split_at, atoi}
use e_roole.Config.Words.{
  node_section, cluster_section, id_key, name_key, type_key, worker_word, data_key, gossip_key,
}
use e_roole.Config.Load.{RooleConfig, with_entry, load_from_file, checked}
use e_roole.Config.Lines.{Lacks, IsKey, IsValue, IsName}
use e_roole.Config.File.{Section, IsSection, file_of, load_from_file-file_of}
use e_roole.Config.Validator.{parse_port, validate}
use e_roole.Config.Verdict.{validate-is_accepted}

-- 1.2.3.4:7000 and 1.2.3.4:7001
abbrev gossip_text : List ℕ
gossip_text = 49 ∷ 46 ∷ 50 ∷ 46 ∷ 51 ∷ 46 ∷ 52 ∷ 58 ∷ 55 ∷ 48 ∷ 48 ∷ 48 ∷ []

abbrev data_text : List ℕ
data_text = 49 ∷ 46 ∷ 50 ∷ 46 ∷ 51 ∷ 46 ∷ 52 ∷ 58 ∷ 55 ∷ 48 ∷ 48 ∷ 49 ∷ []

abbrev settings : List Section
settings =
    (cluster_section, (name_key, 97 ∷ 98 ∷ []) ∷ [])
    ∷ (
      node_section,
      (id_key, 55 ∷ [])
          ∷ (type_key, worker_word)
          ∷ (gossip_key, gossip_text)
          ∷ (data_key, data_text)
          ∷ [],
    )
    ∷ []

abbrev settings_config : RooleConfig
settings_config = record {
  cluster_name = 97 ∷ 98 ∷ [];
  node_id = 7;
  node_type = 2;
  ports = record {
    gossip_addr = gossip_text;
    data_addr = data_text;
    ingress_addr = [];
    metrics_addr = [];
  };
  routers = [];
  log_level = 0;
}

abbrev lacks : ℕ → List ℕ → Bool
lacks c [] = true
lacks c (x ∷ s) = not (x == c) && lacks c s

lacks-Lacks : (c : ℕ) (s : List ℕ) → lacks c s ≡ true → Lacks c s
lacks-Lacks c [] h = tt
lacks-Lacks c (x ∷ s) h =
    let other : x ≢ c = ground arith in (other, lacks-Lacks c s (ground arith))

entry-IsKey :
    (first : ℕ) (others : List ℕ)
    → (is_space first || ((first == 59) || ((first == 35) || (first == 91)))) ≡ false
    → drop_trailing (first ∷ others) ≡ first ∷ others
    → lacks 61 (first ∷ others) ≡ true
    → lacks 10 (first ∷ others) ≡ true
    → length (first ∷ others) < 255
    → IsKey (first ∷ others)
entry-IsKey first others starts back no_equals no_newline short = record {
  first = first;
  others = others;
  parts = refl;
  starts = starts;
  back = back;
  no_equals = lacks-Lacks 61 (first ∷ others) no_equals;
  no_newline = lacks-Lacks 10 (first ∷ others) no_newline;
  short = short;
}

entry-IsValue :
    (value : List ℕ)
    → skip_spaces value ≡ value
    → drop_trailing value ≡ value
    → lacks 10 value ≡ true
    → length value < 255
    → IsValue value
entry-IsValue value front back no_newline short = record {
  trimmed = record { front = front; back = back };
  no_newline = lacks-Lacks 10 value no_newline;
  short = short;
}

section-IsName :
    (name : List ℕ) → lacks 93 name ≡ true → lacks 10 name ≡ true → length name ≤ 63 → IsName name
section-IsName name no_bracket no_newline short = record {
  no_bracket = lacks-Lacks 93 name no_bracket;
  no_newline = lacks-Lacks 10 name no_newline;
  short = short;
}

settings-IsSection : All IsSection settings
unfolding skip_spaces drop_trailing
settings-IsSection = (
  (
    section-IsName cluster_section refl refl (omega arith),
    (
      (
        entry-IsKey _ _ refl refl refl refl (omega arith),
        entry-IsValue _ refl refl refl (omega arith),
      ),
      tt,
    ),
  ),
  (
    (
      section-IsName node_section refl refl (omega arith),
      (
        (
          entry-IsKey _ _ refl refl refl refl (omega arith),
          entry-IsValue _ refl refl refl (omega arith),
        ),
        (
          (
            entry-IsKey _ _ refl refl refl refl (omega arith),
            entry-IsValue _ refl refl refl (omega arith),
          ),
          (
            (
              entry-IsKey _ _ refl refl refl refl (omega arith),
              entry-IsValue _ refl refl refl (omega arith),
            ),
            (
              (
                entry-IsKey _ _ refl refl refl refl (omega arith),
                entry-IsValue _ refl refl refl (omega arith),
              ),
              tt,
            ),
          ),
        ),
      ),
    ),
    tt,
  ),
)

load_from_file-file_of_example : load_from_file (file_of settings) ≡ some settings_config
unfolding checked with_entry same_word atoi
load_from_file-file_of_example = load_from_file-file_of settings settings-IsSection

validate-is_accepted_example :
    ((validate (λ ip. strings_equal ip (take 7 gossip_text)) settings_config).0 ≡ true)
    × ((validate (λ ip. strings_equal ip (take 7 gossip_text)) settings_config).0 ≡ true
        → length (validate (λ ip. strings_equal ip (take 7 gossip_text)) settings_config).1.errors
          ≤ 6)
unfolding strings_equal parse_port split_at atoi
validate-is_accepted_example =
    validate-is_accepted (λ ip. strings_equal ip (take 7 gossip_text)) settings_config
