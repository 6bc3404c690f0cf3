-- ===== src/Prometheus/LastValues.antt =====
-- exporter/prometheusexporter/accumulator.go: the values that the accumulator holds, one round of its loops
-- over data points, and the conversion of deltas.
use hypertrace_collector.Prelude.{
  ℕ, ◌+◌, Bool, true, false, ◌&&◌, Option, none, some, List, [], ◌∷◌, Str, ◌==◌, if◌then◌else◌,
}
use hypertrace_collector.Prelude.GoMap.{GoMap}
use hypertrace_collector.Pdata.Metrics.{
  Temporality, delta, NumberValue, no_value, int_value, double_value, NumberPoint, HistogramPoint,
  SummaryPoint, Points, gauge, sum, histogram, summary, Metric,
}
use hypertrace_collector.Prometheus.Histogram.{Float, add64}

-- accumulatedValue: a metric with one data point.
pub record Accumulated (M D : Type 0) : Type 0 where
  pub value : Metric M D
  pub resource_attrs : M
  pub updated : ℕ
  pub scope : Str

-- registeredMetrics
abbrev pub Registry : Type 0 → Type 0 → Type 0
Registry M D = GoMap (Accumulated M D)

-- The end of one round of a loop over data points: a panic, the return of 0, the next round, or the
-- next round with one more point stored.
pub data Step (R : Type 0) : Type 0 where
  panic : Step R
  stop : R → Step R
  skip : Step R
  stored : R → Step R

-- The loops over data points; none is a panic.
unfoldable pub each_point : {P R : Type 0} → (R → P → Step R) → R → ℕ → List P → Option (R × ℕ)
each_point step reg n [] = some (reg, n)
each_point step reg n (p ∷ ps) = elim (step reg p) [
  | panic ↦ none
  | stop reg' ↦ some (reg', 0)
  | skip ↦ each_point step reg n ps
  | stored reg' ↦ each_point step reg' (n + 1) ps
]

module _ {D : Type 0} where
  -- `ip.IntValue()`, `ip.DoubleValue()` of a point that may have a value of another type.
  abbrev pub int_of : NumberValue D → ℕ
  int_of (int_value n) = n
  int_of _ = 0

  abbrev pub double_of : Float D → NumberValue D → D
  double_of float (double_value d) = d
  double_of float _ = float.zero

  -- The `switch ip.ValueType()` of accumulateSum.
  unfoldable pub add_value : Float D → NumberValue D → NumberValue D → NumberValue D
  add_value float (int_value a) prev = int_value (add64 a (int_of prev))
  add_value float (double_value d) prev = double_value (float.add d (double_of float prev))
  add_value float no_value prev = no_value

abbrev pub is_delta : Temporality → Bool
is_delta delta = true
is_delta _ = false

-- `v.value.Gauge().DataPoints().At(0)` and the like; none where the value is of another type.
module _ {M D : Type 0} where
  abbrev pub gauge_point : Points M D → Option (NumberPoint M D)
  gauge_point (gauge (p ∷ _)) = some p
  gauge_point _ = none

  abbrev pub sum_point : Points M D → Option (NumberPoint M D)
  sum_point (sum _ _ (p ∷ _)) = some p
  sum_point _ = none

  abbrev pub histogram_point : Points M D → Option (HistogramPoint M D)
  histogram_point (histogram _ (p ∷ _)) = some p
  histogram_point _ = none

  abbrev pub summary_point : Points M D → Option (SummaryPoint M D)
  summary_point (summary (p ∷ _)) = some p
  summary_point _ = none

  -- Delta to cumulative: the point that is stored, after the previous one.
  unfoldable pub to_cumulative :
      Float D → Temporality → NumberPoint M D → NumberPoint M D → NumberPoint M D
  unfolding add_value
  to_cumulative float t prev p =
      if is_delta t && p.start_timestamp == prev.timestamp
      then record p {
        start_timestamp = prev.start_timestamp;
        value = add_value float p.value prev.value;
      }
      else p
