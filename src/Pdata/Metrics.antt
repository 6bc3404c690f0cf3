-- ===== src/Pdata/Metrics.antt =====
-- pmetric.Metrics as the tree that its accessors show. Fields that no code of this repository reads
-- are left out. `M` is pcommon.Map and `D` is float64.
use hypertrace_collector.Prelude.{ℕ, Bool, List, [], ◌∷◌, ◌++◌, map, Str}

pub data Temporality : Type 0 where
  unspecified delta cumulative : Temporality

-- `ip.ValueType()` and the value: an int64 is its 64-bit pattern.
pub data NumberValue (D : Type 0) : Type 0 where
  no_value : NumberValue D
  int_value : ℕ → NumberValue D
  double_value : D → NumberValue D

-- `no_recorded_value` is the flag `ip.Flags().NoRecordedValue()`. Timestamps are in nanoseconds.
pub record NumberPoint (M D : Type 0) : Type 0 where
  pub attributes : M
  pub start_timestamp : ℕ
  pub timestamp : ℕ
  pub no_recorded_value : Bool
  pub value : NumberValue D

pub record HistogramPoint (M D : Type 0) : Type 0 where
  pub attributes : M
  pub start_timestamp : ℕ
  pub timestamp : ℕ
  pub no_recorded_value : Bool
  pub count : ℕ
  pub sum : D
  pub explicit_bounds : List D
  pub bucket_counts : List ℕ

pub record ExponentialPoint (M : Type 0) : Type 0 where
  pub attributes : M

pub record SummaryPoint (M D : Type 0) : Type 0 where
  pub attributes : M
  pub timestamp : ℕ
  pub no_recorded_value : Bool
  pub count : ℕ
  pub sum : D
  pub quantiles : List (D × D)

-- `metric.Type()` is the constructor.
pub data Points (M D : Type 0) : Type 0 where
  empty : Points M D
  gauge : List (NumberPoint M D) → Points M D
  sum : Temporality → Bool → List (NumberPoint M D) → Points M D
  histogram : Temporality → List (HistogramPoint M D) → Points M D
  exponential_histogram : List (ExponentialPoint M) → Points M D
  summary : List (SummaryPoint M D) → Points M D

pub record Metric (M D : Type 0) : Type 0 where
  pub name : Str
  pub description : Str
  pub unit : Str
  pub points : Points M D

pub record ScopeMetrics (M D : Type 0) : Type 0 where
  pub scope_name : Str
  pub metrics : List (Metric M D)

pub record ResourceMetrics (M D : Type 0) : Type 0 where
  pub resource : M
  pub scopes : List (ScopeMetrics M D)

abbrev pub Metrics : Type 0 → Type 0 → Type 0
Metrics M D = List (ResourceMetrics M D)

module _ {M D : Type 0} where
  -- The attribute maps of a metric's data points, in order.
  abbrev pub point_maps : Points M D → List M
  point_maps empty = []
  point_maps (gauge ps) = map (λ p. p.attributes) ps
  point_maps (sum t m ps) = map (λ p. p.attributes) ps
  point_maps (histogram t ps) = map (λ p. p.attributes) ps
  point_maps (exponential_histogram ps) = map (λ p. p.attributes) ps
  point_maps (summary ps) = map (λ p. p.attributes) ps

  abbrev pub metric_maps : List (Metric M D) → List M
  metric_maps [] = []
  metric_maps (m ∷ ms) = point_maps m.points ++ metric_maps ms

  abbrev pub scope_maps : List (ScopeMetrics M D) → List M
  scope_maps [] = []
  scope_maps (s ∷ ss) = metric_maps s.metrics ++ scope_maps ss

  -- Every attribute map of a batch: each resource's, followed by those of its data points.
  abbrev pub all_maps : Metrics M D → List M
  all_maps [] = []
  all_maps (r ∷ rs) = r.resource ∷ (scope_maps r.scopes ++ all_maps rs)
