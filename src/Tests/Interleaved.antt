-- ===== src/Tests/Interleaved.antt =====
-- Two rounds of the Prometheus accumulator that run at once.
use hypertrace_collector.Prelude.{ℕ, ◌≡◌, refl, true, [], ◌∷◌, Str, str, str_eq, join}
use hypertrace_collector.Prelude.GoMap.{GoMap, lookup, insert}
use hypertrace_collector.Prelude.Sort.{sort_strings, insert_sorted}
use hypertrace_collector.Prometheus.Labels.{extract_job, extract_instance}
use hypertrace_collector.Pdata.Metrics.{NumberPoint, delta, cumulative, gauge, sum}
use hypertrace_collector.Prometheus.Signature.{timeseries_signature}
use hypertrace_collector.Prometheus.LastValues.{Registry, to_cumulative}
use hypertrace_collector.Prometheus.Accumulator.{accumulated}
use hypertrace_collector.Prometheus.Accumulator.Interleaved.{
  over, next, Concurrent, both_begun, first_moved, second_moved,
}
use hypertrace_collector.Prometheus.Accumulator.Interleaved.Series.{
  PointRound, gauge_round, sum_round, signature_of, accesses, alone, Concurrent-alone,
}
use hypertrace_collector.Tests.Sample.{attrs}
use hypertrace_collector.Tests.Accumulator.{float, type_string, source, point}

abbrev gauge_point : NumberPoint (GoMap Str) ℕ
gauge_point = record (point 0 5 1) { attributes = (str "a", str "1") ∷ [] }

abbrev of_gauge : PointRound (GoMap Str) ℕ
of_gauge = gauge_round gauge_point

abbrev of_sum : PointRound (GoMap Str) ℕ
of_sum = sum_round delta true (point 5 9 2)

abbrev gauge_series : Str
gauge_series = signature_of attrs type_string float source of_gauge

abbrev sum_series : Str
sum_series = signature_of attrs type_string float source of_sum

-- The sum was 5 before.
abbrev begin : Registry (GoMap Str) ℕ
begin = (sum_series, accumulated source (sum cumulative true (point 0 5 5 ∷ []))) ∷ []

abbrev summed : Registry (GoMap Str) ℕ
summed = insert sum_series (accumulated source (sum cumulative true (point 0 9 7 ∷ []))) begin

abbrev reg : Registry (GoMap Str) ℕ
reg = insert gauge_series (accumulated source (gauge (gauge_point ∷ []))) summed

-- Load of the gauge, Load and Store of the sum, Store of the gauge.
alternated :
    Concurrent
      (accesses attrs type_string float source of_gauge)
      (accesses attrs type_string float source of_sum)
      begin
      reg
      over
      over
unfolding next str_eq timeseries_signature str join sort_strings extract_job extract_instance
    insert_sorted to_cumulative
alternated = first_moved (second_moved (second_moved (first_moved both_begun refl) refl) refl) refl

Concurrent-alone_example :
    lookup sum_series reg
    ≡ lookup sum_series (
        alone attrs type_string float source of_sum
          (alone attrs type_string float source of_gauge begin))
unfolding str_eq timeseries_signature str join sort_strings insert_sorted extract_job lookup
    extract_instance
Concurrent-alone_example =
    Concurrent-alone attrs type_string float source source of_gauge of_sum begin reg sum_series refl
      alternated
