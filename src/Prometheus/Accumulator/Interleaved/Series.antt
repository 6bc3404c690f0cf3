-- ===== src/Prometheus/Accumulator/Interleaved/Series.antt =====
-- The rounds for data points of two series, in calls of Accumulate that run at once.
use hypertrace_collector.Prelude.{◌≡◌, sym, Bool, false, Option, Str, str_eq, str_eq_iff, str_eq-ne}
use hypertrace_collector.Prelude.GoMap.{lookup}
use hypertrace_collector.Pdata.Attributes.{AttributeMap}
use hypertrace_collector.Pdata.Metrics.{Temporality, HistogramPoint, NumberPoint, SummaryPoint}
use hypertrace_collector.Prometheus.Signature.{MetricType}
use hypertrace_collector.Prometheus.Histogram.{Float}
use hypertrace_collector.Prometheus.LastValues.{Accumulated, Registry, Step}
use hypertrace_collector.Prometheus.Accumulator.{
  Source, signature, gauge_step, sum_step, summary_step, histogram_step,
}
use hypertrace_collector.Prometheus.Accumulator.Interleaved.{
  Decision, Round, over, decide_gauge, decide_summary, decide_sum, decide_histogram, left_by, next,
  Concurrent,
}
use hypertrace_collector.Prometheus.Accumulator.Interleaved.Serial.{whole}
use hypertrace_collector.Prometheus.Accumulator.Interleaved.Rounds.{
  gauge_step-whole, summary_step-whole, sum_step-whole, histogram_step-whole,
}
use hypertrace_collector.Prometheus.Accumulator.Interleaved.Both.{Concurrent-serial}

-- A round of accumulateGauge, accumulateSummary, accumulateSum or accumulateHistogram.
pub data PointRound (M D : Type 0) : Type 0 where
  gauge_round : NumberPoint M D → PointRound M D
  summary_round : SummaryPoint M D → PointRound M D
  sum_round : Temporality → Bool → NumberPoint M D → PointRound M D
  histogram_round : Temporality → HistogramPoint M D → PointRound M D

module _ {M D : Type 0} where
  abbrev pub attributes_of : PointRound M D → M
  attributes_of (gauge_round p) = p.attributes
  attributes_of (summary_round p) = p.attributes
  attributes_of (sum_round t monotonic p) = p.attributes
  attributes_of (histogram_round t p) = p.attributes

  abbrev pub ends_of : PointRound M D → Bool
  ends_of (gauge_round p) = p.no_recorded_value
  ends_of (summary_round p) = p.no_recorded_value
  ends_of (sum_round t monotonic p) = p.no_recorded_value
  ends_of (histogram_round t p) = p.no_recorded_value

  abbrev pub decide_of : Float D → PointRound M D → Option (Accumulated M D) → Decision M D
  decide_of float (gauge_round p) = decide_gauge p
  decide_of float (summary_round p) = decide_summary p
  decide_of float (sum_round t monotonic p) = decide_sum float t monotonic p
  decide_of float (histogram_round t p) = decide_histogram float t p

module _ {M V D : Type 0} (attrs : AttributeMap M V) (type_string : MetricType → Str)
    (float : Float D) where
  abbrev pub signature_of : Source M D → PointRound M D → Str
  signature_of s c = signature attrs type_string float s (attributes_of c)

  -- The accesses of a round.
  abbrev pub accesses :
      Source M D → PointRound M D → Registry M D → Round M D → Option (Registry M D × Round M D)
  accesses s c = next s (signature_of s c) (ends_of c) (decide_of float c)

  -- The round that runs alone.
  abbrev pub step_of : Source M D → PointRound M D → Registry M D → Step (Registry M D)
  step_of s (gauge_round p) reg = gauge_step attrs type_string float s reg p
  step_of s (summary_round p) reg = summary_step attrs type_string float s reg p
  step_of s (sum_round t monotonic p) reg = sum_step attrs type_string float s t monotonic reg p
  step_of s (histogram_round t p) reg = histogram_step attrs type_string float s t reg p

  abbrev pub alone : Source M D → PointRound M D → Registry M D → Registry M D
  alone s c reg = left_by reg (step_of s c reg)

  step_of-whole :
      (s : Source M D) (c : PointRound M D) (reg : Registry M D)
      → step_of s c reg ≡ whole s (signature_of s c) (ends_of c) (decide_of float c) reg
  step_of-whole s (gauge_round p) reg = gauge_step-whole attrs type_string float s p reg
  step_of-whole s (summary_round p) reg = summary_step-whole attrs type_string float s p reg
  step_of-whole s (sum_round t monotonic p) reg =
      sum_step-whole attrs type_string float s t monotonic p reg
  step_of-whole s (histogram_round t p) reg = histogram_step-whole attrs type_string float s t p reg

  -- Two rounds for data points of different series, each of a gauge, a summary, a sum or a histogram, whose
  -- reads and writes of the registry alternate in any order, leave under every signature what they leave when the one runs
  -- after the other.
  pub Concurrent-alone :
      (s s' : Source M D) (c d : PointRound M D) (begin reg : Registry M D) (k : Str)
      → str_eq (signature_of s c) (signature_of s' d) ≡ false
      → Concurrent (accesses s c) (accesses s' d) begin reg over over
      → lookup k reg ≡ lookup k (alone s' d (alone s c begin))
  Concurrent-alone s s' c d begin reg k h r =
      rw (step_of-whole s' d (alone s c begin), step_of-whole s c begin)
        (Concurrent-serial s _ _ _ s' _ _ _ begin reg k h
          (str_eq-ne _ _
            (λ e. cc ((str_eq_iff (signature_of s c) (signature_of s' d)).1 (sym e), h)))
          r)
