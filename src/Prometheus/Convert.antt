-- ===== src/Prometheus/Convert.antt =====
-- exporter/prometheusexporter/collector.go: newCollector, and the conversion of one metric with its
-- labels and exemplars. client_golang, the translator of names and the accessors of pdata that only
-- the conversion uses are parameters. The outer none of a conversion is a panic.
pub mod ByType
pub mod Total
pub mod Collected
use hypertrace_collector.Prelude.{
  ℕ, ◌+◌, ◌/◌, ◌%◌, Bool, true, false, ◌&&◌, ◌⊎◌, inl, inr, Option, none, some, List, [], ◌∷◌, ◌++◌,
  map, Str, str_eq, ltb, ◌==◌, if◌then◌else◌, length,
}
use hypertrace_collector.Prelude.GoMap.{GoMap, insert}
use hypertrace_collector.Pdata.Attributes.{AttributeMap, job_label, instance_label}
use hypertrace_collector.Pdata.Metrics.{
  NumberValue, no_value, int_value, double_value, NumberPoint, HistogramPoint, SummaryPoint, Points,
  empty, gauge, sum, histogram, exponential_histogram, summary, Metric,
}
use hypertrace_collector.Prometheus.Histogram.{Float}
use hypertrace_collector.Prometheus.Labels.{extract_job, extract_instance}
use hypertrace_collector.Prometheus.Buckets.{bucket_points}

-- Config, as far as the collector reads it.
pub record Config : Type 0 where
  pub namespace : Str
  pub const_labels : GoMap Str
  pub send_timestamps : Bool
  pub metric_expiration : ℕ
  pub add_metric_suffixes : Bool

-- collector, without its accumulator.
pub record Collector : Type 0 where
  pub send_timestamps : Bool
  pub add_metric_suffixes : Bool
  pub namespace : Str
  pub const_labels : GoMap Str

-- newCollector; `clean_up_string` is the translator's CleanUpString.
unfoldable pub new_collector : (Str → Str) → Config → Collector
new_collector clean_up_string c = record {
  send_timestamps = c.send_timestamps;
  add_metric_suffixes = c.add_metric_suffixes;
  namespace = clean_up_string c.namespace;
  const_labels = c.const_labels;
}

-- pmetric.Exemplar: the ids are byte arrays of a fixed length.
pub record Exemplar (D : Type 0) : Type 0 where
  pub trace_id : Str
  pub span_id : Str
  pub value : NumberValue D
  pub timestamp : ℕ

-- The accessors of pdata: the exemplars of a point, and the metadata of a metric.
pub record Accessors (M D : Type 0) : Type 0 where
  pub number_exemplars : NumberPoint M D → List (Exemplar D)
  pub histogram_exemplars : HistogramPoint M D → List (Exemplar D)
  pub metadata : Metric M D → Str → Option Str

-- The functions and constants of prometheustranslator and of the Prometheus model, and the conversion
-- `float64(n)` of an int64.
pub record Translator (M D : Type 0) : Type 0 where
  pub normalize_label : Str → Str
  pub build_compliant_name : Metric M D → Str → Bool → Str
  pub exemplar_trace_id_key : Str
  pub exemplar_span_id_key : Str
  pub metric_metadata_type_key : Str
  pub metric_type_unknown : Str
  pub float_of_int : ℕ → D

-- prometheus.Exemplar
pub record PromExemplar (D : Type 0) : Type 0 where
  pub value : D
  pub labels : GoMap Str
  pub timestamp : ℕ

-- prometheus.Desc, by the arguments of NewDesc.
pub record Desc : Type 0 where
  pub name : Str
  pub help : Str
  pub variable_labels : List Str
  pub const_labels : GoMap Str

pub data ValueType : Type 0 where
  counter_value gauge_value untyped_value : ValueType

-- client_golang: the constructors of constant metrics.
pub record Client (D P E : Type 0) : Type 0 where
  pub new_const_metric : Desc → ValueType → D → List Str → E ⊎ P
  pub new_const_summary : Desc → ℕ → D → List (D × D) → List Str → E ⊎ P
  pub new_const_histogram : Desc → ℕ → D → List (D × ℕ) → List Str → E ⊎ P
  pub new_metric_with_exemplars : P → List (PromExemplar D) → E ⊎ P
  pub new_metric_with_timestamp : ℕ → P → P

pub data ConvertError (E : Type 0) : Type 0 where
  unknown_metric_type : ConvertError E
  client_error : E → ConvertError E

-- `IsEmpty` of an id, and `hex.EncodeToString`
abbrev zero_bytes : Str → Bool
zero_bytes [] = true
zero_bytes (c ∷ s) = c == 0 && zero_bytes s

abbrev hex_digit : ℕ → ℕ
hex_digit n = if ltb n 10 then 48 + n else 87 + n

abbrev encode_hex : Str → Str
encode_hex [] = []
encode_hex (c ∷ s) = hex_digit (c / 16) ∷ hex_digit (c % 16) ∷ encode_hex s

abbrev pub id_label : Str → Str → GoMap Str → GoMap Str
id_label key id labels = if zero_bytes id then labels else insert key (encode_hex id) labels

module _ {M D : Type 0} (float : Float D) (translator : Translator M D) where
  -- The `switch` on the type of a value.
  abbrev pub value_of : NumberValue D → D
  value_of no_value = float.zero
  value_of (int_value n) = translator.float_of_int n
  value_of (double_value d) = d

  -- convertExemplars
  unfoldable pub convert_exemplars : List (Exemplar D) → List (PromExemplar D)
  convert_exemplars [] = []
  convert_exemplars (e ∷ es) =
      record {
        value = value_of e.value;
        labels =
            id_label translator.exemplar_span_id_key e.span_id
              (id_label translator.exemplar_trace_id_key e.trace_id []);
        timestamp = e.timestamp;
      }
      ∷ convert_exemplars es

  -- The assignment `quantiles[q] = v`, and its loop.
  unfoldable pub assign : D → D → List (D × D) → List (D × D)
  assign q v [] = (q, v) ∷ []
  assign q v ((x, w) ∷ m) = if float.eq x q then (q, v) ∷ m else (x, w) ∷ assign q v m

  unfoldable pub quantile_map : List (D × D) → List (D × D) → List (D × D)
  unfolding assign
  quantile_map [] m = m
  quantile_map ((q, v) ∷ qs) m = quantile_map qs (assign q v m)

module _ {M V D : Type 0} (attrs : AttributeMap M V) (translator : Translator M D)
    (c : Collector) where
  open attrs use {entries, as_string}

  -- A label that is appended if its value is there.
  abbrev pub optional : Str → Option Str → List (Str × Str)
  optional label none = []
  optional label (some v) = (label, v) ∷ []

  -- The keys and the values of getMetricMetadata, in pairs.
  abbrev pub label_pairs : M → M → List (Str × Str)
  label_pairs attributes resource =
      map {A = Str × V} {B = Str × Str} (λ (k, v). (translator.normalize_label k, as_string v))
        (entries attributes)
      ++ (optional job_label (extract_job attrs resource)
          ++ optional instance_label (extract_instance attrs resource))

  -- getMetricMetadata
  unfoldable pub get_metric_metadata : Metric M D → M → M → Desc × List Str
  get_metric_metadata metric attributes resource =
      let pairs = label_pairs attributes resource in
      (
        record {
          name = translator.build_compliant_name metric c.namespace c.add_metric_suffixes;
          help = metric.description;
          variable_labels = map (λ p. p.0) pairs;
          const_labels = c.const_labels;
        },
        map (λ p. p.1) pairs,
      )
