-- ===== src/Tests/Scrapes.antt =====
-- The Prometheus exporter at concrete inputs: a gauge that arrives, an expired histogram, and scrapes.
use hypertrace_collector.Prelude.{
  ℕ, ◌+◌, ◌≡◌, refl, sym, ap, ◌∙◌, ◌⊎◌, inl, inr, Bool, true, false, ◌&&◌, not, none, List, [], ◌∷◌,
  Str, str, str_eq, ltb, ◌==◌, if◌then◌else◌, arith,
}
use hypertrace_collector.Prelude.All.{All}
use hypertrace_collector.Prelude.GoMap.{GoMap}
use hypertrace_collector.Pdata.Metrics.{
  NumberPoint, HistogramPoint, int_value, Points, gauge, histogram, Metric, ResourceMetrics,
  Metrics, delta,
}
use hypertrace_collector.Prometheus.Signature.{
  MetricType, empty_type, gauge_type, sum_type, histogram_type, exponential_histogram_type,
  summary_type,
}
use hypertrace_collector.Prometheus.Histogram.{Float}
use hypertrace_collector.Prometheus.Accumulator.{Source, accumulate, add_points}
use hypertrace_collector.Prometheus.Accumulator.Kept.{TypeNames}
use hypertrace_collector.Prometheus.Accumulator.Safe.{Kept, Ends}
use hypertrace_collector.Prometheus.Accumulator.Whole.{accumulate-Kept}
use hypertrace_collector.Prometheus.Accumulator.Latest.{RefinesAll, add_points-RefinesAll}
use hypertrace_collector.Prometheus.Convert.{
  Collector, new_collector, Accessors, Translator, Client,
}
use hypertrace_collector.Prometheus.Exporter.{run_calls}
use hypertrace_collector.Prometheus.Exporter.Calls.{Scrapes, run_calls-Scrapes}
use hypertrace_collector.Tests.Sample.{attrs}

abbrev float : Float ℕ
float = record { add = λ a b. a + b; eq = λ a b. a == b; lt = λ a b. ltb a b; zero = 0 }

-- The names that pmetric.MetricType.String() gives, and reading them back.
abbrev type_string : MetricType → Str
type_string empty_type = str "Empty"
type_string gauge_type = str "Gauge"
type_string sum_type = str "Sum"
type_string histogram_type = str "Histogram"
type_string exponential_histogram_type = str "ExponentialHistogram"
type_string summary_type = str "Summary"

abbrev type_named : Str → MetricType
type_named s =
    if str_eq s (str "Gauge")
    then gauge_type
    else if str_eq s (str "Sum")
    then sum_type
    else if str_eq s (str "Histogram")
    then histogram_type
    else if str_eq s (str "ExponentialHistogram")
    then exponential_histogram_type
    else if str_eq s (str "Summary")
    then summary_type
    else empty_type

named_back : (t : MetricType) → type_named (type_string t) ≡ t
unfolding str str_eq
named_back empty_type = refl
named_back gauge_type = refl
named_back sum_type = refl
named_back histogram_type = refl
named_back exponential_histogram_type = refl
named_back summary_type = refl

abbrev star_free : Str → Bool
star_free [] = true
star_free (c ∷ s) = not (c == 42) && star_free s

star_free-All : (s : Str) → star_free s ≡ true → All (λ c. c == 42 ≡ false) s
star_free-All [] h = tt
star_free-All (c ∷ s) h = ground (arith, star_free-All s, h)

no_stars : (t : MetricType) → star_free (type_string t) ≡ true
unfolding str
no_stars empty_type = refl
no_stars gauge_type = refl
no_stars sum_type = refl
no_stars histogram_type = refl
no_stars exponential_histogram_type = refl
no_stars summary_type = refl

names : TypeNames type_string
names = record {
  distinct = λ a b h. sym (named_back a) ∙ (ap type_named h ∙ named_back b);
  no_star = λ a. star_free-All (type_string a) (no_stars a);
}

abbrev point : ℕ → ℕ → NumberPoint (GoMap Str) ℕ
point end n = record {
  attributes = [];
  start_timestamp = 0;
  timestamp = end;
  no_recorded_value = false;
  value = int_value n;
}

abbrev buckets : HistogramPoint (GoMap Str) ℕ
buckets = record {
  attributes = [];
  start_timestamp = 0;
  timestamp = 5;
  no_recorded_value = false;
  count = 7;
  sum = 90;
  explicit_bounds = 10 ∷ 20 ∷ [];
  bucket_counts = 1 ∷ 2 ∷ 4 ∷ [];
}

abbrev metric : Points (GoMap Str) ℕ → Metric (GoMap Str) ℕ
metric ps = record { name = str "m"; description = []; unit = []; points = ps }

abbrev gauges : List (NumberPoint (GoMap Str) ℕ)
gauges = point 9 3 ∷ point 4 2 ∷ []

abbrev source : Source (GoMap Str) ℕ
source = record { metric = metric (gauge gauges); scope = str "s"; resource_attrs = []; now = 100 }

add_points-RefinesAll_example :
    RefinesAll attrs type_string names float source [] gauges
      (add_points attrs type_string float source (gauge gauges) [])
add_points-RefinesAll_example =
    add_points-RefinesAll attrs type_string names float source gauges [] refl (refl, (refl, tt)) tt

abbrev resource : ResourceMetrics (GoMap Str) ℕ
resource = record {
  resource = [];
  scopes =
      record {
        scope_name = str "s";
        metrics = metric (gauge gauges) ∷ metric (histogram delta (buckets ∷ buckets ∷ [])) ∷ [];
      }
      ∷ [];
}

accumulate-Kept_example :
    Ends (Kept attrs type_string names float) (accumulate attrs type_string float 100 resource [])
accumulate-Kept_example =
    accumulate-Kept attrs type_string names float 100 resource []
      ((tt, ((refl, (refl, tt)), tt)), tt) tt

abbrev translator : Translator (GoMap Str) ℕ
translator = record {
  normalize_label = λ s. s;
  build_compliant_name = λ m namespace suffixes. m.name;
  exemplar_trace_id_key = str "trace_id";
  exemplar_span_id_key = str "span_id";
  metric_metadata_type_key = str "prometheus.type";
  metric_type_unknown = str "unknown";
  float_of_int = λ n. n;
}

abbrev accessors : Accessors (GoMap Str) ℕ
accessors = record {
  number_exemplars = λ p. [];
  histogram_exemplars = λ p. [];
  metadata = λ m k. none;
}

-- A client whose metrics are their names.
abbrev client : Client ℕ Str Str
client = record {
  new_const_metric = λ d t v ls. inr d.name;
  new_const_summary = λ d n s qs ls. inr d.name;
  new_const_histogram = λ d n s ps ls. inr d.name;
  new_metric_with_exemplars = λ m es. inr m;
  new_metric_with_timestamp = λ t m. m;
}

abbrev collector : Collector
collector =
    new_collector (λ s. s)
      (record {
        namespace = [];
        const_labels = [];
        send_timestamps = false;
        metric_expiration = 50;
        add_metric_suffixes = true;
      })

abbrev clock : ℕ → ℕ
clock i = 100

abbrev calls : List (((ℕ → ℕ) × Metrics (GoMap Str) ℕ) ⊎ ℕ)
calls = inl (clock, resource ∷ []) ∷ inr 120 ∷ inl (clock, resource ∷ []) ∷ inr 200 ∷ []

run_calls-Scrapes_example :
    Scrapes attrs type_string names float translator accessors client collector 50
      (run_calls attrs type_string float 50 calls [])
run_calls-Scrapes_example =
    run_calls-Scrapes attrs type_string names float translator accessors client collector 50 calls
      ((((tt, ((refl, (refl, tt)), tt)), tt), tt), ((((tt, ((refl, (refl, tt)), tt)), tt), tt), tt))
