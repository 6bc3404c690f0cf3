-- ===== src/Prometheus/Signature.antt =====
-- timeseriesSignature (exporter/prometheusexporter/accumulator.go).
pub mod Order
use hypertrace_collector.Prelude.{Option, none, some, List, [], ◌∷◌, ◌++◌, Str, join}
use hypertrace_collector.Prelude.GoMap.{GoMap}
use hypertrace_collector.Prelude.Sort.{sort_strings}
use hypertrace_collector.Pdata.Attributes.{AttributeMap, job_label, instance_label}
use hypertrace_collector.Pdata.Metrics.{
  Points, empty, gauge, sum, histogram, exponential_histogram, summary, Metric,
}
use hypertrace_collector.Prometheus.Labels.{extract_job, extract_instance}

-- pmetric.MetricType
pub data MetricType : Type 0 where
  empty_type gauge_type sum_type histogram_type exponential_histogram_type summary_type : MetricType

abbrev pub type_of : {M D : Type 0} → Points M D → MetricType
type_of empty = empty_type
type_of (gauge _) = gauge_type
type_of (sum _ _ _) = sum_type
type_of (histogram _ _) = histogram_type
type_of (exponential_histogram _) = exponential_histogram_type
type_of (summary _) = summary_type

-- "*"
abbrev pub star : Str
star = 42 ∷ []

-- A label and its value, if there is one.
abbrev label_part : Str → Option Str → Str
label_part label none = []
label_part label (some s) = star ++ (label ++ (star ++ s))

module _ {M V : Type 0} (attrs : AttributeMap M V) where
  open attrs use {entries, as_string}

  -- `k+"*"+v.AsString()` for each attribute.
  unfoldable pub attribute_parts : GoMap V → List Str
  attribute_parts [] = []
  attribute_parts ((k, v) ∷ es) = (k ++ (star ++ as_string v)) ∷ attribute_parts es

  -- `type_string` is `metric.Type().String()`.
  unfoldable pub timeseries_signature :
      {D : Type 0} → (MetricType → Str) → Str → Metric M D → M → M → Str
  unfolding attribute_parts
  timeseries_signature type_string scope metric attributes resource_attrs =
      type_string (type_of metric.points)
      ++ (star
          ++ (scope
              ++ (star
                  ++ (metric.name
                      ++ (star
                          ++ (join star (sort_strings (attribute_parts (entries attributes)))
                              ++ (label_part job_label (extract_job attrs resource_attrs)
                                  ++ label_part instance_label
                                      (extract_instance attrs resource_attrs))))))))
