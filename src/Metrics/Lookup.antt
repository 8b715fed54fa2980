-- ===== src/Metrics/Lookup.antt =====
-- Asking the registry of src/metrics/metrics.c for a metric, and asking again.
use e_roole.Prelude.{
  ℕ, ◌≤◌, ◌≡◌, ◌≢◌, refl, sym, ◌∙◌, subst, true, false, List, [], ◌∷◌, Option, some, length, set,
  get_elem?, get_elem?-set_other, All, ltb, leb, Bool-cases, inl, inr,
}
use e_roole.Slots.{
  Found, Found-find_slot, Found-sat, Found-get_elem?, find_slot-cases, Found-set_new,
}
use e_roole.Raft.Datastore.Table.{strings_equal_iff}
use e_roole.Wire.Text.{take-all}
use e_roole.Metrics.{
  MetricType, Label, Metric, MetricsRegistry, max_metrics, max_labels, labels_match, is_metric,
  is_unused, copy_labels, new_metric, find_or_create,
}

-- The label fits its fields.
pub record IsLabel (l : Label) : Type 0 where
  pub name : length l.name ≤ 63
  pub value : length l.value ≤ 127

copy_labels-same : (ls : List Label) → All IsLabel ls → copy_labels ls ≡ ls
unfolding copy_labels
copy_labels-same [] h = refl
copy_labels-same (l ∷ ls) h =
    rw (take-all 63 l.name h.0.name, take-all 127 l.value h.0.value, copy_labels-same ls h.1) refl

labels_match_refl : (ls : List Label) → labels_match ls ls ≡ true
unfolding labels_match
labels_match_refl [] = refl
labels_match_refl (l ∷ ls) =
    rw ((strings_equal_iff l.name l.name).1 refl, (strings_equal_iff l.value l.value).1 refl)
      (labels_match_refl ls)

-- A new metric is the one that was asked for.
new_metric-is_metric :
    (name help : List ℕ) (type : MetricType) (labels : List Label)
    → length name ≤ 127
    → All IsLabel labels
    → is_metric name labels (new_metric name help type labels) ≡ true
new_metric-is_metric name help type labels short fit =
    rw (take-all 127 name short, copy_labels-same labels fit, (strings_equal_iff name name).1 refl)
      (labels_match_refl labels)

-- What is in use is in the same cell of the other list.
abbrev pub Untouched : List Metric → List Metric → Type 0
Untouched ms ns =
    (j : ℕ) (m : Metric) → get_elem? ms j ≡ some m → m.active ≡ true → get_elem? ns j ≡ some m

set-Untouched :
    (ms : List Metric) {i : ℕ} {e : Metric} (v : Metric)
    → Found is_unused ms i e
    → Untouched ms (set ms i v)
set-Untouched ms {i} {e} v f j m g used =
    let differ : j ≢ i = λ same.
      let here = subst (λ k. get_elem? ms k ≡ some m) same g in
      let there = Found-get_elem? f in
      let unused = Found-sat f in
      let one : m ≡ e = cc in
      let idle = subst (λ x. is_unused x ≡ true) (sym one) unused in
      absurd (let d = rw used at idle in cc) in
    get_elem?-set_other ms i j v differ ∙ g

Found-find_or_create :
    (reg : MetricsRegistry) (name help : List ℕ) (type : MetricType) (labels : List Label) {k : ℕ}
    {m : Metric}
    → ltb max_labels (length labels) ≡ false
    → Found (is_metric name labels) reg.metrics k m
    → find_or_create reg name help type labels ≡ (some k, reg)
unfolding find_or_create
Found-find_or_create reg name help type labels few f = rw (few, Found-find_slot f) refl

-- Where a metric was asked for, and there was one or room for one, under a name and labels that fit
-- their fields, the same name and labels lead to the same metric, whatever the help and the type, and
-- no metric that was in use is changed.
pub find_or_create-again :
    (reg reg' : MetricsRegistry) (name help help' : List ℕ) (type type' : MetricType)
    (labels : List Label) (i : ℕ)
    → find_or_create reg name help type labels ≡ (some i, reg')
    → length name ≤ 127
    → All IsLabel labels
    → (find_or_create reg' name help' type' labels ≡ (some i, reg'))
      × Untouched reg.metrics reg'.metrics
unfolding find_or_create
find_or_create-again reg reg' name help help' type type' labels i made short fit =
    elim (Bool-cases (ltb max_labels (length labels))) [
      | inl many ↦ absurd (let d = rw (many, find_or_create) at made in cc)
      | inr few ↦ elim (find_slot-cases (is_metric name labels) reg.metrics) [
        | inr (k, m, f) ↦
            subst Again (rw (few, Found-find_slot f, find_or_create) at made)
              (Found-find_or_create reg name help' type' labels few f, λ j x g used. g)
        | inl n ↦ elim (Bool-cases (leb max_metrics reg.count)) [
          | inl full ↦ absurd (let d = rw (few, n, full, find_or_create) at made in cc)
          | inr room ↦ elim (find_slot-cases is_unused reg.metrics) [
            | inl none_left ↦
                absurd (let d = rw (few, n, room, none_left, find_or_create) at made in cc)
            | inr (k, m, f) ↦
                let v = new_metric name help type labels in
                let found =
                  Found-set_new v n f (new_metric-is_metric name help type labels short fit) in
                subst Again (rw (few, n, room, Found-find_slot f, find_or_create) at made) (
                  Found-find_or_create _ name help' type' labels few found,
                  set-Untouched reg.metrics v f,
                )
          ]
        ]
      ]
    ]
  where
    Again : Option ℕ × MetricsRegistry → Type 0
    Again p = (find_or_create p.1 name help' type' labels ≡ p) × Untouched reg.metrics p.1.metrics
