-- ===== src/Prometheus/Convert/ByType.antt =====
-- exporter/prometheusexporter/collector.go: convertMetric, convertGauge, convertSum, convertSummary
-- and convertDoubleHistogram. The outer none is a panic: `DataPoints().At(0)` of a metric without
-- points, or a bucket without a count.
use hypertrace_collector.Prelude.{
  ℕ, Bool, true, false, ◌⊎◌, inl, inr, Option, none, some, List, [], ◌∷◌, Str, str_eq,
  if◌then◌else◌,
}
use hypertrace_collector.Pdata.Attributes.{AttributeMap}
use hypertrace_collector.Pdata.Metrics.{
  NumberPoint, HistogramPoint, SummaryPoint, Points, empty, gauge, sum, histogram,
  exponential_histogram, summary, Metric,
}
use hypertrace_collector.Prometheus.Histogram.{Float}
use hypertrace_collector.Prometheus.Buckets.{bucket_points}
use hypertrace_collector.Prometheus.Convert.{
  Collector, Accessors, Translator, PromExemplar, ValueType, counter_value, gauge_value,
  untyped_value, Client, ConvertError, unknown_metric_type, client_error, value_of,
  convert_exemplars, quantile_map, get_metric_metadata,
}

-- `len(exemplars) > 0`
abbrev pub has_exemplars : {D : Type 0} → List (PromExemplar D) → Bool
has_exemplars [] = false
has_exemplars (_ ∷ _) = true

abbrev counter_if : Bool → ValueType
counter_if true = counter_value
counter_if false = gauge_value

-- The type of a gauge, by the original type in its metadata.
abbrev gauge_type : Str → Option Str → ValueType
gauge_type unknown none = gauge_value
gauge_type unknown (some t) = if str_eq t unknown then untyped_value else gauge_value

module _ {D P E : Type 0} (client : Client D P E) (c : Collector) where
  -- `if c.sendTimestamps`
  abbrev pub stamped : ℕ → P → P
  stamped t m = if c.send_timestamps then client.new_metric_with_timestamp t m else m

  -- The end of a conversion, after the constructor of the metric.
  unfoldable pub finished : ℕ → E ⊎ P → ConvertError E ⊎ P
  finished t (inl e) = inl (client_error e)
  finished t (inr m) = inr (stamped t m)

  -- The same with exemplars.
  unfoldable pub with_exemplars : List (PromExemplar D) → E ⊎ P → E ⊎ P
  with_exemplars es (inl e) = inl e
  with_exemplars es (inr m) =
      if has_exemplars es then client.new_metric_with_exemplars m es else inr m

module _ {M V D P E : Type 0} (attrs : AttributeMap M V) (float : Float D)
    (translator : Translator M D) (accessors : Accessors M D) (client : Client D P E)
    (c : Collector) (metric : Metric M D) (resource : M) where
  -- convertGauge
  unfoldable pub convert_gauge : List (NumberPoint M D) → Option (ConvertError E ⊎ P)
  unfolding finished
  convert_gauge [] = none
  convert_gauge (ip ∷ _) =
      let (desc, values) = get_metric_metadata attrs translator c metric ip.attributes resource in
      some (
        finished client c ip.timestamp (
          client.new_const_metric desc
            (gauge_type translator.metric_type_unknown
              (accessors.metadata metric translator.metric_metadata_type_key))
            (value_of float translator ip.value) values))

  -- convertSum
  unfoldable pub convert_sum : Bool → List (NumberPoint M D) → Option (ConvertError E ⊎ P)
  unfolding finished with_exemplars
  convert_sum monotonic [] = none
  convert_sum monotonic (ip ∷ _) =
      let (desc, values) = get_metric_metadata attrs translator c metric ip.attributes resource in
      let exemplars =
        if monotonic
        then convert_exemplars float translator (accessors.number_exemplars ip)
        else [] in
      some (
        finished client c ip.timestamp (
          with_exemplars client c exemplars (
            client.new_const_metric desc (counter_if monotonic) (value_of float translator ip.value)
              values)))

  -- convertSummary
  unfoldable pub convert_summary : List (SummaryPoint M D) → Option (ConvertError E ⊎ P)
  unfolding finished
  convert_summary [] = none
  convert_summary (point ∷ _) =
      let (desc, values) =
        get_metric_metadata attrs translator c metric point.attributes resource in
      some (
        finished client c point.timestamp (
          client.new_const_summary desc point.count point.sum
            (quantile_map float translator point.quantiles []) values))

  -- convertDoubleHistogram
  unfoldable pub convert_double_histogram : List (HistogramPoint M D) → Option (ConvertError E ⊎ P)
  unfolding finished with_exemplars
  convert_double_histogram [] = none
  convert_double_histogram (ip ∷ _) =
      let (desc, values) = get_metric_metadata attrs translator c metric ip.attributes resource in
      elim (bucket_points float ip.explicit_bounds ip.bucket_counts) [
        | none ↦ none
        | some points ↦ some (
            finished client c ip.timestamp (
              with_exemplars client c
                (convert_exemplars float translator (accessors.histogram_exemplars ip))
                (client.new_const_histogram desc ip.count ip.sum points values)))
      ]

  -- The `switch` of convertMetric.
  unfoldable pub convert_points : Points M D → Option (ConvertError E ⊎ P)
  unfolding convert_gauge convert_sum convert_summary convert_double_histogram
  convert_points empty = some (inl unknown_metric_type)
  convert_points (gauge ps) = convert_gauge ps
  convert_points (sum t m ps) = convert_sum m ps
  convert_points (histogram t ps) = convert_double_histogram ps
  convert_points (exponential_histogram ps) = some (inl unknown_metric_type)
  convert_points (summary ps) = convert_summary ps

  unfoldable pub convert_metric : Option (ConvertError E ⊎ P)
  unfolding convert_points
  convert_metric = convert_points metric.points
