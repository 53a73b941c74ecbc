-- ===== src/Metrics/Metric.antt =====
-- `Label`, `Metric`, `MetricType` and `MetricCategory` of fdapquery-physical-plan/src/metrics.rs.
use fdapquery.Base.{ℕ, String, Bool, true, false, Option, none, some, List, [], ◌∷◌, ◌++◌, concat}
use fdapquery.Metrics.Timestamp.{Chrono}
use fdapquery.Metrics.Value.{CustomMetricValue, MetricValue}

pub data MetricCategory : Type 0 where
  rows bytes timing uncategorized : MetricCategory

pub data MetricType : Type 0 where
  summary dev : MetricType

pub record Label : Type 0 where
  pub name : String
  pub value : String

unfoldable pub label_text : Label → String
label_text l = concat (l.name ∷ "=" ∷ l.value ∷ [])

-- The derived `==`.
abbrev pub same_type : MetricType → MetricType → Bool
same_type MetricType.summary MetricType.summary = true
same_type MetricType.dev MetricType.dev = true
same_type _ _ = false

abbrev pub same_category : MetricCategory → MetricCategory → Bool
same_category MetricCategory.rows MetricCategory.rows = true
same_category MetricCategory.bytes MetricCategory.bytes = true
same_category MetricCategory.timing MetricCategory.timing = true
same_category MetricCategory.uncategorized MetricCategory.uncategorized = true
same_category _ _ = false

module _ ⦃chrono : Chrono⦄ ⦃dyn : CustomMetricValue⦄ where
  pub record Metric : Type 0 where
    pub value : MetricValue
    pub labels : List Label
    pub partition : Option ℕ
    pub metric_type : MetricType
    pub metric_category : Option MetricCategory

  unfoldable pub new_with_labels : MetricValue → Option ℕ → List Label → Metric
  new_with_labels value partition labels = record {
    value = value;
    labels = labels;
    partition = partition;
    metric_type = MetricType.dev;
    metric_category = none;
  }

  unfoldable pub new : MetricValue → Option ℕ → Metric
  unfolding new_with_labels
  new value partition = new_with_labels value partition []

  unfoldable pub with_type : Metric → MetricType → Metric
  with_type m t = record m { metric_type = t }

  unfoldable pub with_category : Metric → MetricCategory → Metric
  with_category m c = record m { metric_category = some c }

  unfoldable pub with_label : Metric → Label → Metric
  with_label m l = record m { labels = m.labels ++ l ∷ [] }
