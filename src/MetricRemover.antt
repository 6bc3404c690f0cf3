-- ===== src/MetricRemover.antt =====
-- processors/metricremover: the processor that drops metrics without a data type.
pub mod Laws
use hypertrace_collector.Prelude.{◌≡◌, Bool, true, false, List, [], ◌∷◌, if◌then◌else◌}
use hypertrace_collector.Pdata.Metrics.{
  Points, empty, Metric, ScopeMetrics, ResourceMetrics, Metrics,
}

-- pmetric.MetricSlice's RemoveIf, with its documented behaviour: the elements for which the function
-- returns true are removed, and the others keep their order.
pub record MetricSlice (A : Type 0) : Type 0 where
  pub remove_if : (A → Bool) → List A → List A
  pub remove_if-nil : (f : A → Bool) → remove_if f [] ≡ []
  pub remove_if-cons :
      (f : A → Bool) (x : A) (xs : List A)
      → remove_if f (x ∷ xs) ≡ (if f x then remove_if f xs else x ∷ remove_if f xs)

-- config.go
pub record Config : Type 0 where
  pub remove_none_metric_type : Bool

-- createDefaultConfig (factory.go)
abbrev pub create_default_config : Config
create_default_config = record { remove_none_metric_type = false }

pub record MetricRemover : Type 0 where
  pub remove_none_metric_type : Bool

-- createMetricsProcessor (factory.go)
abbrev create_metrics_processor : Config → MetricRemover
create_metrics_processor c = record { remove_none_metric_type = c.remove_none_metric_type }

module _ {M D : Type 0} where
  -- `m.Type() == pmetric.MetricTypeEmpty`
  abbrev is_empty_points : Points M D → Bool
  is_empty_points empty = true
  is_empty_points _ = false

  abbrev pub is_empty_type : Metric M D → Bool
  is_empty_type m = is_empty_points m.points

module _ {M D : Type 0} (slice : MetricSlice (Metric M D)) where
  pub remove_scopes : List (ScopeMetrics M D) → List (ScopeMetrics M D)
  remove_scopes [] = []
  remove_scopes (s ∷ ss) =
      record s { metrics = slice.remove_if is_empty_type s.metrics } ∷ remove_scopes ss

  pub remove_resources : Metrics M D → Metrics M D
  unfolding remove_scopes
  remove_resources [] = []
  remove_resources (r ∷ rs) = record r { scopes = remove_scopes r.scopes } ∷ remove_resources rs

  -- ProcessMetrics, which never returns an error.
  pub process_metrics : MetricRemover → Metrics M D → Metrics M D
  unfolding remove_resources
  process_metrics p metrics =
      if p.remove_none_metric_type then remove_resources metrics else metrics
