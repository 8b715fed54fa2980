-- ===== src/Metrics.antt =====
-- The registry of src/metrics/metrics.c. A string is the list of its characters before the NUL, the
-- value of a metric is the bits of the double, which are only stored here, and a metric is known by
-- the index of its cell. Pointer arguments are not NULL, and a mutex can always be made. The
-- histograms, which the registry holds apart, are left out.
pub mod Lookup
use e_roole.Prelude.{
  ℕ, ◌+◌, ◌&&◌, not, Bool, true, false, List, [], ◌∷◌, Option, none, some, length, take, set,
  replicate, ltb, leb, if◌then◌else◌,
}
use e_roole.Slots.{find_slot}
use e_roole.Raft.Datastore.Table.{strings_equal}

pub data MetricType : Type 0 where
  counter gauge : MetricType

pub record Label : Type 0 where
  pub name : List ℕ
  pub value : List ℕ

-- The list `labels` is the first `num_labels` cells of the array.
pub record Metric : Type 0 where
  pub name : List ℕ
  pub help : List ℕ
  pub type : MetricType
  pub labels : List Label
  pub value : ℕ
  pub active : Bool

pub record MetricsRegistry : Type 0 where
  pub metrics : List Metric
  pub count : ℕ

-- `MAX_METRICS_PER_REGISTRY` and `MAX_LABELS_PER_METRIC`
abbrev pub max_metrics : ℕ
max_metrics = 256

abbrev pub max_labels : ℕ
max_labels = 8

-- `metrics_registry_init`, where the allocation and the lock succeed.
unfoldable pub init : MetricsRegistry
init = record {
  metrics =
      replicate max_metrics
        (record { name = []; help = []; type = counter; labels = []; value = 0; active = false });
  count = 0;
}

abbrev pub same_label : Label → Label → Bool
same_label a b = strings_equal a.name b.name && strings_equal a.value b.value

-- The comparison of the counts and of the labels one by one.
unfoldable pub labels_match : List Label → List Label → Bool
labels_match [] [] = true
labels_match [] (b ∷ bs) = false
labels_match (a ∷ xs) [] = false
labels_match (a ∷ xs) (b ∷ bs) = same_label a b && labels_match xs bs

abbrev pub is_metric : List ℕ → List Label → Metric → Bool
is_metric name labels m = m.active && (strings_equal m.name name && labels_match m.labels labels)

abbrev pub is_unused : Metric → Bool
is_unused m = not m.active

-- `safe_strncpy` of the labels into the cells of a metric.
unfoldable pub copy_labels : List Label → List Label
copy_labels [] = []
copy_labels (l ∷ ls) = record { name = take 63 l.name; value = take 127 l.value } ∷ copy_labels ls

abbrev pub new_metric : List ℕ → List ℕ → MetricType → List Label → Metric
new_metric name help type labels = record {
  name = take 127 name;
  help = take 255 help;
  type = type;
  labels = copy_labels labels;
  value = 0;
  active = true;
}

-- `find_or_create_metric`: the cell of the metric, or `none` for NULL.
unfoldable pub find_or_create :
    MetricsRegistry → List ℕ → List ℕ → MetricType → List Label → Option ℕ × MetricsRegistry
find_or_create reg name help type labels =
    if ltb max_labels (length labels)
    then (none, reg)
    else (elim (find_slot (is_metric name labels) reg.metrics) [
      | some (i, m) ↦ (some i, reg)
      | none ↦
          if leb max_metrics reg.count
          then (none, reg)
          else (elim (find_slot is_unused reg.metrics) [
            | none ↦ (none, reg)
            | some (i, m) ↦ (
              some i,
              record {
                metrics = set reg.metrics i (new_metric name help type labels);
                count = reg.count + 1;
              },
            )
          ])
    ])
