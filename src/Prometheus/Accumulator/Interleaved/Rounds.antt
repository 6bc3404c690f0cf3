-- ===== src/Prometheus/Accumulator/Interleaved/Rounds.antt =====
-- The rounds of accumulateGauge, accumulateSummary, accumulateSum and accumulateHistogram, as rounds by a decision.
use hypertrace_collector.Prelude.{
  ◌≡◌, ◌==◌, refl, Bool, true, false, Option, none, some, [], ◌∷◌, Str, if◌then◌else◌,
}
use hypertrace_collector.Prelude.GoMap.{lookup, insert, erase}
use hypertrace_collector.Pdata.Attributes.{AttributeMap}
use hypertrace_collector.Pdata.Metrics.{
  Temporality, unspecified, delta, cumulative, histogram, HistogramPoint, NumberPoint, SummaryPoint,
  Points,
}
use hypertrace_collector.Prometheus.Signature.{MetricType}
use hypertrace_collector.Prometheus.Histogram.{Float, before, accumulate_histogram_values}
use hypertrace_collector.Prometheus.LastValues.{
  Accumulated, Registry, Step, panic, stop, skip, stored, gauge_point, sum_point, summary_point,
  histogram_point,
}
use hypertrace_collector.Prometheus.Accumulator.{
  Source, accumulated, signature, store, gauge_step, sum_step, summary_step, histogram_step,
  histogram_update,
}
use hypertrace_collector.Prometheus.Accumulator.Interleaved.{
  Decision, crash, keep, put, decide_point, keep_old, merged, decide_gauge, decide_summary,
  decide_sum, decide_histogram, decide_histogram_update,
}
use hypertrace_collector.Prometheus.Accumulator.Interleaved.Serial.{by_decision, whole}

module _ {M D : Type 0} (s : Source M D) (sig : Str) (reg : Registry M D) where
  keep_old-step :
      (old : Bool) (ps : Points M D)
      → Path
          (Step (Registry M D))
          (if old then skip else stored (insert sig (accumulated s ps) reg))
          (by_decision s sig reg (keep_old old ps))
  keep_old-step true ps = refl
  keep_old-step false ps = refl

  -- The decision for a delta, where the points are consecutive (`same`) or there is a gap.
  merged-step :
      (same gap : Bool) (o : Option (HistogramPoint M D)) (ps : Points M D)
      → Path
          (Step (Registry M D))
          (if same
            then elim o [
              | none ↦ panic
              | some r ↦ stored (insert sig (accumulated s (histogram cumulative (r ∷ []))) reg)
            ]
            else if gap
            then stored (insert sig (accumulated s ps) reg)
            else skip)
          (by_decision s sig reg (if same then merged o else if gap then put ps else keep))
  merged-step true gap none ps = refl
  merged-step true gap (some r) ps = refl
  merged-step false true o ps = refl
  merged-step false false o ps = refl

  update-step :
      {P : Type 0} (step : P → Step (Registry M D)) (update : P → Decision M D) (o : Option P)
      → ((q : P) → step q ≡ by_decision s sig reg (update q))
      → Path
          (Step (Registry M D))
          (elim o [ none ↦ panic | some q ↦ step q ])
          (by_decision s sig reg (elim o [ none ↦ crash | some q ↦ update q ]))
  update-step step update none h = refl
  update-step step update (some q) h = h q

  -- A round that is written as the rounds of the accumulator are is the one by its decision.
  whole-point :
      {P : Type 0} (point : Points M D → Option P) (first : Points M D)
      (step : P → Step (Registry M D)) (update : P → Decision M D) (ends : Bool)
      (found : Option (Accumulated M D))
      → ((q : P) → step q ≡ by_decision s sig reg (update q))
      → Path
          (Step (Registry M D))
          (if ends then stop (erase sig reg) else elim found [
            | none ↦ stored (insert sig (accumulated s first) reg)
            | some v ↦ elim (point v.value.points) [ none ↦ panic | some q ↦ step q ]
          ])
          (if ends
            then stop (erase sig reg)
            else by_decision s sig reg (decide_point point first update found))
  whole-point point first step update true found h = refl
  whole-point point first step update false none h = refl
  whole-point point first step update false (some v) h =
      update-step step update (point v.value.points) h

module _ {M V D : Type 0} (attrs : AttributeMap M V) (type_string : MetricType → Str)
    (float : Float D) (s : Source M D) where
  pub gauge_step-whole :
      (p : NumberPoint M D) (reg : Registry M D)
      → gauge_step attrs type_string float s reg p
        ≡ whole s
            (signature attrs type_string float s p.attributes)
            p.no_recorded_value
            (decide_gauge p)
            reg
  unfolding gauge_step store
  gauge_step-whole p reg =
      let sig = signature attrs type_string float s p.attributes in
      whole-point s sig reg gauge_point _ _ _ p.no_recorded_value (lookup sig reg)
        (λ q. keep_old-step s sig reg (before p.timestamp q.timestamp) _)

  pub summary_step-whole :
      (p : SummaryPoint M D) (reg : Registry M D)
      → summary_step attrs type_string float s reg p
        ≡ whole s
            (signature attrs type_string float s p.attributes)
            p.no_recorded_value
            (decide_summary p)
            reg
  unfolding summary_step store
  summary_step-whole p reg =
      let sig = signature attrs type_string float s p.attributes in
      whole-point s sig reg summary_point _ _ _ p.no_recorded_value (lookup sig reg)
        (λ q. keep_old-step s sig reg (before p.timestamp q.timestamp) _)

  pub sum_step-whole :
      (t : Temporality) (monotonic : Bool) (p : NumberPoint M D) (reg : Registry M D)
      → sum_step attrs type_string float s t monotonic reg p
        ≡ whole s
            (signature attrs type_string float s p.attributes)
            p.no_recorded_value
            (decide_sum float t monotonic p)
            reg
  unfolding sum_step store
  sum_step-whole t monotonic p reg =
      let sig = signature attrs type_string float s p.attributes in
      whole-point s sig reg sum_point _ _ _ p.no_recorded_value (lookup sig reg)
        (λ q. keep_old-step s sig reg (before p.timestamp q.timestamp) _)

  histogram_update-by_decision :
      (t : Temporality) (p q : HistogramPoint M D) (sig : Str) (reg : Registry M D)
      → histogram_update attrs type_string float s t sig reg q p
        ≡ by_decision s sig reg (decide_histogram_update float t p q)
  unfolding histogram_update store
  histogram_update-by_decision unspecified p q sig reg = refl
  histogram_update-by_decision cumulative p q sig reg =
      keep_old-step s sig reg (before p.timestamp q.timestamp) (histogram cumulative (p ∷ []))
  histogram_update-by_decision delta p q sig reg =
      merged-step s sig reg (p.start_timestamp == q.timestamp)
        (before q.timestamp p.start_timestamp) (accumulate_histogram_values float q p)
        (histogram cumulative (p ∷ []))

  pub histogram_step-whole :
      (t : Temporality) (p : HistogramPoint M D) (reg : Registry M D)
      → histogram_step attrs type_string float s t reg p
        ≡ whole s
            (signature attrs type_string float s p.attributes)
            p.no_recorded_value
            (decide_histogram float t p)
            reg
  unfolding histogram_step store
  histogram_step-whole t p reg =
      let sig = signature attrs type_string float s p.attributes in
      whole-point s sig reg histogram_point _ _ _ p.no_recorded_value (lookup sig reg)
        (λ q. histogram_update-by_decision t p q sig reg)
