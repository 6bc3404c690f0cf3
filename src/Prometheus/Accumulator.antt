-- ===== src/Prometheus/Accumulator.antt =====
-- exporter/prometheusexporter/accumulator.go: the registry of last values. Calls are taken one after the
-- other; the sync.Map is a map from signatures to values.
pub mod Loops
pub mod Deltas
pub mod Expiry
pub mod Buckets
pub mod Fresh
pub mod Kept
pub mod Safe
pub mod Total
pub mod Whole
pub mod Latest
pub mod Interleaved
use hypertrace_collector.Prelude.{
  ℕ, ◌+◌, ◌%◌, ◌^◌, ◌<◌, Bool, true, false, not, ◌&&◌, Option, none, some, List, [], ◌∷◌, ◌++◌, Str,
  ltb, ◌==◌, if◌then◌else◌,
}
use hypertrace_collector.Prelude.GoMap.{GoMap, lookup, insert, erase}
use hypertrace_collector.Pdata.Attributes.{AttributeMap}
use hypertrace_collector.Pdata.Metrics.{
  Temporality, unspecified, delta, cumulative, NumberValue, no_value, int_value, double_value,
  NumberPoint, HistogramPoint, SummaryPoint, Points, empty, gauge, sum, histogram,
  exponential_histogram, summary, Metric, ScopeMetrics, ResourceMetrics,
}
use hypertrace_collector.Prometheus.Signature.{MetricType, timeseries_signature}
use hypertrace_collector.Prometheus.Histogram.{Float, add64, before, accumulate_histogram_values}
use hypertrace_collector.Prometheus.LastValues.{
  Accumulated, Registry, Step, panic, stop, skip, stored, each_point, int_of, double_of, add_value,
  is_delta, gauge_point, sum_point, histogram_point, summary_point, to_cumulative,
}

-- What one call works with: the metric, its scope's name, its resource, and `now`.
pub record Source (M D : Type 0) : Type 0 where
  pub metric : Metric M D
  pub scope : Str
  pub resource_attrs : M
  pub now : ℕ

abbrev pub accumulated : {M D : Type 0} → Source M D → Points M D → Accumulated M D
accumulated s points = record {
  value = record s.metric { points = points };
  resource_attrs = s.resource_attrs;
  updated = s.now;
  scope = s.scope;
}

module _ {M V D : Type 0} (attrs : AttributeMap M V) (type_string : MetricType → Str)
    (float : Float D) (s : Source M D) where
  abbrev pub signature : M → Str
  signature attributes =
      timeseries_signature attrs type_string s.scope s.metric attributes s.resource_attrs

  -- `a.registeredMetrics.Store(signature, …)` of the metric's metadata (copyMetricMetadata) with the
  -- given points.
  unfoldable pub store : Str → Points M D → Registry M D → Registry M D
  store sig points reg = insert sig (accumulated s points) reg

  unfoldable summary_step : Registry M D → SummaryPoint M D → Step (Registry M D)
  unfolding store
  summary_step reg p =
      let sig = signature p.attributes in
      if p.no_recorded_value then stop (erase sig reg) else elim (lookup sig reg) [
        | none ↦ stored (store sig (summary (p ∷ [])) reg)
        | some v ↦ elim (summary_point v.value.points) [
          | none ↦ panic
          | some q ↦
              if before p.timestamp q.timestamp
              then skip
              else stored (store sig (summary (p ∷ [])) reg)
        ]
      ]

  unfoldable pub gauge_step : Registry M D → NumberPoint M D → Step (Registry M D)
  unfolding store
  gauge_step reg p =
      let sig = signature p.attributes in
      if p.no_recorded_value then stop (erase sig reg) else elim (lookup sig reg) [
        | none ↦ stored (store sig (gauge (p ∷ [])) reg)
        | some v ↦ elim (gauge_point v.value.points) [
          | none ↦ panic
          | some q ↦
              if before p.timestamp q.timestamp
              then skip
              else stored (store sig (gauge (p ∷ [])) reg)
        ]
      ]

  unfoldable pub sum_step :
      Temporality → Bool → Registry M D → NumberPoint M D → Step (Registry M D)
  unfolding store to_cumulative
  sum_step t monotonic reg p =
      let sig = signature p.attributes in
      if p.no_recorded_value then stop (erase sig reg) else elim (lookup sig reg) [
        | none ↦ stored (store sig (sum cumulative monotonic (p ∷ [])) reg)
        | some v ↦ elim (sum_point v.value.points) [
          | none ↦ panic
          | some q ↦
              if before p.timestamp q.timestamp
              then skip
              else stored
                  (store sig (sum cumulative monotonic (to_cumulative float t q p ∷ [])) reg)
        ]
      ]

  -- The `switch histogram.AggregationTemporality()`, for the stored point `q`.
  unfoldable histogram_update :
      Temporality
      → Str
      → Registry M D
      → HistogramPoint M D
      → HistogramPoint M D
      → Step (Registry M D)
  unfolding store accumulate_histogram_values
  histogram_update delta sig reg q p =
      if p.start_timestamp == q.timestamp
      then elim (accumulate_histogram_values float q p) [
        | none ↦ panic
        | some r ↦ stored (store sig (histogram cumulative (r ∷ [])) reg)
      ]
      else if before q.timestamp p.start_timestamp
      then stored (store sig (histogram cumulative (p ∷ [])) reg)
      else skip
  histogram_update cumulative sig reg q p =
      if before p.timestamp q.timestamp
      then skip
      else stored (store sig (histogram cumulative (p ∷ [])) reg)
  histogram_update unspecified sig reg q p = skip

  unfoldable histogram_step : Temporality → Registry M D → HistogramPoint M D → Step (Registry M D)
  unfolding histogram_update store
  histogram_step t reg p =
      let sig = signature p.attributes in
      if p.no_recorded_value then stop (erase sig reg) else elim (lookup sig reg) [
        | none ↦ stored (store sig (histogram cumulative (p ∷ [])) reg)
        | some v ↦ elim (histogram_point v.value.points) [
          | none ↦ panic
          | some q ↦ histogram_update t sig reg q p
        ]
      ]

  -- accumulateSum's guards: an unspecified temporality, and deltas that are not monotonic, are dropped.
  unfoldable pub accumulate_sum :
      Temporality → Bool → List (NumberPoint M D) → Registry M D → Option (Registry M D × ℕ)
  unfolding sum_step each_point
  accumulate_sum unspecified monotonic ps reg = some (reg, 0)
  accumulate_sum delta false ps reg = some (reg, 0)
  accumulate_sum delta true ps reg = each_point (sum_step delta true) reg 0 ps
  accumulate_sum cumulative monotonic ps reg = each_point (sum_step cumulative monotonic) reg 0 ps

  -- addMetric, with accumulateGauge, accumulateHistogram and accumulateSummary; a metric of another
  -- type is only logged.
  unfoldable pub add_points : Points M D → Registry M D → Option (Registry M D × ℕ)
  unfolding each_point gauge_step accumulate_sum histogram_step summary_step
  add_points (gauge ps) reg = each_point gauge_step reg 0 ps
  add_points (sum t monotonic ps) reg = accumulate_sum t monotonic ps reg
  add_points (histogram t ps) reg = each_point (histogram_step t) reg 0 ps
  add_points (summary ps) reg = each_point summary_step reg 0 ps
  add_points empty reg = some (reg, 0)
  add_points (exponential_histogram ps) reg = some (reg, 0)

-- One more result of addMetric, added to `n`.
abbrev pub add_count : {R : Type 0} → ℕ → Option (R × ℕ) → Option (R × ℕ)
add_count n none = none
add_count n (some (reg, k)) = some (reg, n + k)

module _ {M V D : Type 0} (attrs : AttributeMap M V) (type_string : MetricType → Str)
    (float : Float D) (resource_attrs : M) (now : ℕ) where
  pub add_metric : Str → Metric M D → Registry M D → Option (Registry M D × ℕ)
  unfolding add_points
  add_metric scope m reg =
      add_points attrs type_string float
        (record { metric = m; scope = scope; resource_attrs = resource_attrs; now = now }) m.points
        reg

  -- The loops of Accumulate over the metrics of a scope, and over the scopes.
  unfoldable pub accumulate_metrics :
      Str → List (Metric M D) → Registry M D → ℕ → Option (Registry M D × ℕ)
  unfolding add_metric
  accumulate_metrics scope [] reg n = some (reg, n)
  accumulate_metrics scope (m ∷ ms) reg n = elim (add_count n (add_metric scope m reg)) [
    | none ↦ none
    | some (reg', n') ↦ accumulate_metrics scope ms reg' n'
  ]

  unfoldable pub accumulate_scopes :
      List (ScopeMetrics M D) → Registry M D → ℕ → Option (Registry M D × ℕ)
  unfolding accumulate_metrics
  accumulate_scopes [] reg n = some (reg, n)
  accumulate_scopes (c ∷ cs) reg n = elim (accumulate_metrics c.scope_name c.metrics reg n) [
    | none ↦ none
    | some (reg', n') ↦ accumulate_scopes cs reg' n'
  ]

module _ {M V D : Type 0} (attrs : AttributeMap M V) (type_string : MetricType → Str)
    (float : Float D) where
  -- Accumulate
  unfoldable pub accumulate : ℕ → ResourceMetrics M D → Registry M D → Option (Registry M D × ℕ)
  unfolding accumulate_scopes
  accumulate now rm reg = accumulate_scopes attrs type_string float rm.resource now rm.scopes reg 0

module _ {M D : Type 0} where
  -- `expirationTime.After(v.updated)`, where `expirationTime` is `now` less the expiration.
  abbrev pub expired : ℕ → ℕ → Accumulated M D → Bool
  expired now expiration v = ltb (v.updated + expiration) now

  -- Collect: the registry without the expired values, and the metrics of the others, each with its
  -- resource attributes.
  unfoldable pub collect : ℕ → ℕ → Registry M D → Registry M D × List (Metric M D × M)
  collect now expiration [] = ([], [])
  collect now expiration ((sig, v) ∷ reg) =
      let (rest, out) = collect now expiration reg in
      if expired now expiration v
      then (rest, out)
      else ((sig, v) ∷ rest, (v.value, v.resource_attrs) ∷ out)
