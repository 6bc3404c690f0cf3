-- ===== src/Tests/Accumulator.antt =====
-- The Prometheus accumulator at concrete inputs. Floats are native numbers.
use hypertrace_collector.Prelude.{
  ℕ, ◌+◌, ◌≡◌, refl, true, false, some, List, [], ◌∷◌, Str, str, str_eq, join, ltb, ◌==◌, arith,
}
use hypertrace_collector.Prelude.GoMap.{GoMap, lookup, insert}
use hypertrace_collector.Pdata.Metrics.{
  NumberPoint, HistogramPoint, int_value, Points, empty, gauge, sum, Metric, cumulative, delta,
}
use hypertrace_collector.Prelude.Sort.{sort_strings}
use hypertrace_collector.Prometheus.Labels.{extract_job, extract_instance}
use hypertrace_collector.Prometheus.Signature.{MetricType, timeseries_signature}
use hypertrace_collector.Prometheus.Signature.Order.{timeseries_signature-Perm}
use mathlib.Core.List.{Permᴰ}
use hypertrace_collector.Prometheus.Histogram.{Float, accumulate_histogram_values}
use hypertrace_collector.Prometheus.Accumulator.{
  Source, accumulated, signature, add_points, accumulate_sum, collect,
}
use hypertrace_collector.Prometheus.LastValues.{Registry}
use hypertrace_collector.Prometheus.Accumulator.Loops.{add_points-stale}
use hypertrace_collector.Prometheus.Accumulator.Deltas.{SumAt, accumulate_sum-deltas}
use hypertrace_collector.Prometheus.Accumulator.Buckets.{
  Consistent, accumulate_histogram_values-Consistent,
}
use hypertrace_collector.Tests.Sample.{attrs}

abbrev pub float : Float ℕ
float = record { add = λ a b. a + b; eq = λ a b. a == b; lt = λ a b. ltb a b; zero = 0 }

abbrev pub type_string : MetricType → Str
type_string _ = []

abbrev pub metric : Metric (GoMap Str) ℕ
metric = record { name = str "m"; description = []; unit = []; points = empty }

abbrev pub source : Source (GoMap Str) ℕ
source = record { metric = metric; scope = str "s"; resource_attrs = []; now = 100 }

abbrev pub point : ℕ → ℕ → ℕ → NumberPoint (GoMap Str) ℕ
point start end n = record {
  attributes = [];
  start_timestamp = start;
  timestamp = end;
  no_recorded_value = false;
  value = int_value n;
}

abbrev stale : NumberPoint (GoMap Str) ℕ
stale = record (point 0 5 1) { no_recorded_value = true }

abbrev series : Str
series = signature attrs type_string float source []

add_points-stale_example :
    (add_points attrs type_string float source (gauge (stale ∷ point 0 6 7 ∷ [])) []
      ≡ add_points attrs type_string float source (gauge (stale ∷ [])) [])
    × ((reg' : Registry (GoMap Str) ℕ) (k : ℕ)
        → add_points attrs type_string float source (gauge (stale ∷ point 0 6 7 ∷ [])) []
          ≡ some (reg', k)
        → k ≡ 0)
add_points-stale_example =
    add_points-stale attrs type_string float source [] (point 0 6 7 ∷ []) stale [] refl

-- The registry with one value.
abbrev holding : Points (GoMap Str) ℕ → Registry (GoMap Str) ℕ
holding ps = (series, accumulated source ps) ∷ []

found : (ps : Points (GoMap Str) ℕ) → lookup series (holding ps) ≡ some (accumulated source ps)
unfolding lookup timeseries_signature str str_eq join sort_strings extract_job extract_instance
found ps = refl

abbrev before_gauge : Registry (GoMap Str) ℕ
before_gauge = holding (gauge (point 0 5 1 ∷ []))

abbrev after_gauge : Registry (GoMap Str) ℕ
after_gauge = holding (gauge (point 0 9 3 ∷ []))

-- Of two points, one is older than what is stored.
accumulated_gauge :
    add_points attrs type_string float source (gauge (point 0 4 2 ∷ point 0 9 3 ∷ [])) before_gauge
    ≡ some (after_gauge, 1)
unfolding add_points lookup insert timeseries_signature str str_eq join sort_strings extract_job
    extract_instance
accumulated_gauge = refl

abbrev deltas : List (NumberPoint (GoMap Str) ℕ)
deltas = point 5 6 10 ∷ point 6 8 20 ∷ []

abbrev before_sum : Registry (GoMap Str) ℕ
before_sum = holding (sum cumulative true (point 0 5 7 ∷ []))

accumulate_sum-deltas_example :
    (reg' : Registry (GoMap Str) ℕ) × (accumulate_sum attrs type_string float source delta true
        deltas before_sum
      ≡ some (reg', 2))
    × SumAt series 0 8 37 reg'
accumulate_sum-deltas_example =
    accumulate_sum-deltas attrs type_string float source series 0 5 7 deltas before_sum
      (omega arith) (refl, refl, refl, refl, refl, (refl, refl, refl, refl, refl, tt))
      (
        accumulated source (sum cumulative true (point 0 5 7 ∷ [])),
        found (sum cumulative true (point 0 5 7 ∷ [])),
        point 0 5 7,
        refl,
        refl,
        refl,
        refl,
      )

-- The value was updated at 100, and 150 is before 200.
nothing_kept : collect 200 50 before_sum ≡ ([], [])
unfolding collect
nothing_kept = refl

abbrev histogram_point : ℕ → ℕ → ℕ → HistogramPoint (GoMap Str) ℕ
histogram_point end n m = record {
  attributes = [];
  start_timestamp = 0;
  timestamp = end;
  no_recorded_value = false;
  count = n + m;
  sum = 0;
  explicit_bounds = 5 ∷ [];
  bucket_counts = n ∷ m ∷ [];
}

merged :
    accumulate_histogram_values float (histogram_point 5 1 2) (histogram_point 9 3 4)
    ≡ some (histogram_point 9 4 6)
unfolding accumulate_histogram_values
merged = refl

accumulate_histogram_values-Consistent_example : Consistent (histogram_point 9 4 6)
accumulate_histogram_values-Consistent_example =
    accumulate_histogram_values-Consistent float (histogram_point 5 1 2) (histogram_point 9 3 4)
      (histogram_point 9 4 6) refl refl refl merged

abbrev a_then_b : GoMap Str
a_then_b = (str "a", str "1") ∷ (str "b", str "2") ∷ []

abbrev b_then_a : GoMap Str
b_then_a = (str "b", str "2") ∷ (str "a", str "1") ∷ []

timeseries_signature-Perm_example :
    timeseries_signature attrs type_string (str "s") metric a_then_b []
    ≡ timeseries_signature attrs type_string (str "s") metric b_then_a []
timeseries_signature-Perm_example =
    timeseries_signature-Perm attrs type_string (str "s") metric a_then_b b_then_a []
      (Permᴰ.swap refl refl)
