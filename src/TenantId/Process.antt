-- ===== src/TenantId/Process.antt =====
-- processors/tenantidprocessor/tenantidprocessor.go: ProcessMetrics, ProcessTraces and their loops.
-- The data is returned as the new value of what the code changes in place.
pub mod Stamps
pub mod Outcomes
use hypertrace_collector.Prelude.{ℕ, Option, none, some, List, [], ◌∷◌, ◌++◌, map, Str}
use hypertrace_collector.Pdata.Attributes.{AttributeMap}
use hypertrace_collector.Pdata.Metrics.{
  NumberPoint, HistogramPoint, ExponentialPoint, SummaryPoint, Points, empty, gauge, sum, histogram,
  exponential_histogram, summary, Metric, ScopeMetrics, ResourceMetrics, Metrics,
}
use hypertrace_collector.Pdata.Traces.{ResourceSpans, Traces}
use hypertrace_collector.Pdata.Telemetry.{TagMap, Measurement, Context, tag_tenant_id}
use hypertrace_collector.TenantId.Config.{
  TenantIdProcessor, stat_span_per_tenant, stat_metric_per_tenant,
}

-- The errors, with what their messages print.
pub data Error : Type 0 where
  no_metadata : ℕ → Error
  missing_header : Str → Error
  multiple_headers : Str → List Str → Error

-- What a call returns, the measurements that it records, and the names of the metrics about which
-- it logs that their data type is missing.
pub record Outcome (T A : Type 0) : Type 0 where
  pub result : A
  pub error : Option Error
  pub recorded : List (Measurement T)
  pub logged : List Str

module _ {M V : Type 0} (attrs : AttributeMap M V) where
  open attrs use {put_str}

  -- addTenantIdToSpans
  pub add_tenant_id_to_spans : Str → Str → Traces M → Traces M
  add_tenant_id_to_spans key tenant [] = []
  add_tenant_id_to_spans key tenant (rs ∷ rss) =
      record rs { resource = put_str rs.resource key tenant }
      ∷ add_tenant_id_to_spans key tenant rss

  module _ {D : Type 0} where
    -- The `switch metricDataType` of addTenantIdToMetrics.
    pub add_to_points : Str → Str → Points M D → Points M D
    add_to_points key tenant empty = empty
    add_to_points key tenant (gauge ps) = gauge (
        map {A = NumberPoint M D} (λ p. record p { attributes = put_str p.attributes key tenant })
          ps)
    add_to_points key tenant (sum t m ps) = sum t m (
        map {A = NumberPoint M D} (λ p. record p { attributes = put_str p.attributes key tenant })
          ps)
    add_to_points key tenant (histogram t ps) = histogram t (
        map {A = HistogramPoint M D}
          (λ p. record p { attributes = put_str p.attributes key tenant }) ps)
    add_to_points key tenant (exponential_histogram ps) = exponential_histogram (
        map {A = ExponentialPoint M}
          (λ p. record p { attributes = put_str p.attributes key tenant }) ps)
    add_to_points key tenant (summary ps) = summary (
        map {A = SummaryPoint M D} (λ p. record p { attributes = put_str p.attributes key tenant })
          ps)

    pub add_to_metrics : Str → Str → List (Metric M D) → List (Metric M D)
    unfolding add_to_points
    add_to_metrics key tenant [] = []
    add_to_metrics key tenant (m ∷ ms) =
        record m { points = add_to_points key tenant m.points } ∷ add_to_metrics key tenant ms

    pub add_to_scopes : Str → Str → List (ScopeMetrics M D) → List (ScopeMetrics M D)
    unfolding add_to_metrics
    add_to_scopes key tenant [] = []
    add_to_scopes key tenant (s ∷ ss) =
        record s { metrics = add_to_metrics key tenant s.metrics } ∷ add_to_scopes key tenant ss

    -- addTenantIdToMetrics
    pub add_tenant_id_to_metrics : Str → Str → Metrics M D → Metrics M D
    unfolding add_to_scopes
    add_tenant_id_to_metrics key tenant [] = []
    add_tenant_id_to_metrics key tenant (rm ∷ rms) =
        record {
          resource = put_str rm.resource key tenant;
          scopes = add_to_scopes key tenant rm.scopes;
        }
        ∷ add_tenant_id_to_metrics key tenant rms

module _ {M D : Type 0} where
  -- The arm `case pmetric.MetricTypeEmpty`: what is logged about one metric.
  abbrev logged_of : Str → Points M D → List Str
  logged_of name empty = name ∷ []
  logged_of name _ = []

  abbrev logged_metrics : List (Metric M D) → List Str
  logged_metrics [] = []
  logged_metrics (m ∷ ms) = logged_of m.name m.points ++ logged_metrics ms

  abbrev logged_scopes : List (ScopeMetrics M D) → List Str
  logged_scopes [] = []
  logged_scopes (s ∷ ss) = logged_metrics s.metrics ++ logged_scopes ss

  -- What addTenantIdToMetrics logs, in its order.
  logged_errors : Metrics M D → List Str
  logged_errors [] = []
  logged_errors (rm ∷ rms) = logged_scopes rm.scopes ++ logged_errors rms

-- The tests on `tenantIDHeaders` that both handlers make.
pub data Header : Type 0 where
  tenant : Str → Header
  refused : Error → Header

pub one_header : Str → List Str → Header
one_header name [] = refused (missing_header name)
one_header name (t ∷ []) = tenant t
one_header name (t ∷ u ∷ rest) = refused (multiple_headers name (t ∷ u ∷ rest))

-- `metadata.FromIncomingContext` and `md.Get`; `n` is what the error of a context without metadata
-- prints.
pub header_of : Str → Option (Str → List Str) → ℕ → Header
unfolding one_header
header_of name none n = refused (no_metadata n)
header_of name (some get) n = one_header name (get name)

abbrev failed : {T A : Type 0} → A → Error → Outcome T A
failed a e = record { result = a; error = some e; recorded = []; logged = [] }

module _ {M V T : Type 0} (attrs : AttributeMap M V) (tagging : TagMap T) where
  -- The rest of ProcessTraces, after the tests on the headers.
  traces_with :
      (Traces M → ℕ) → TenantIdProcessor → Context T → Traces M → Header → Outcome T (Traces M)
  unfolding add_tenant_id_to_spans
  traces_with span_count p ctx traces (refused e) = failed traces e
  traces_with span_count p ctx traces (tenant t) =
      let traces' = add_tenant_id_to_spans attrs p.tenant_id_attribute_key t traces in
      record {
        result = traces';
        error = none;
        recorded =
            record {
              measure = stat_span_per_tenant;
              tags = tagging.insert ctx.tags tag_tenant_id t;
              amount = span_count traces';
            }
            ∷ [];
        logged = [];
      }

  -- ProcessTraces; `span_count` is `traces.SpanCount()`.
  unfoldable pub process_traces :
      (Traces M → ℕ) → TenantIdProcessor → Context T → Traces M → Outcome T (Traces M)
  unfolding traces_with header_of
  process_traces span_count p ctx traces =
      traces_with span_count p ctx traces
        (header_of p.tenant_id_header_name ctx.incoming (span_count traces))

  module _ {D : Type 0} where
    -- The rest of ProcessMetrics, after the tests on the headers.
    metrics_with :
        (Metrics M D → ℕ)
        → TenantIdProcessor
        → Context T
        → Metrics M D
        → Header
        → Outcome T (Metrics M D)
    unfolding add_tenant_id_to_metrics logged_errors
    metrics_with metric_count p ctx metrics (refused e) = failed metrics e
    metrics_with metric_count p ctx metrics (tenant t) =
        let metrics' = add_tenant_id_to_metrics attrs p.tenant_id_attribute_key t metrics in
        record {
          result = metrics';
          error = none;
          recorded =
              record {
                measure = stat_metric_per_tenant;
                tags = tagging.insert ctx.tags tag_tenant_id t;
                amount = metric_count metrics';
              }
              ∷ [];
          logged = logged_errors metrics;
        }

    -- ProcessMetrics; `metric_count` is `metrics.MetricCount()`.
    unfoldable pub process_metrics :
        (Metrics M D → ℕ) → TenantIdProcessor → Context T → Metrics M D → Outcome T (Metrics M D)
    unfolding metrics_with header_of
    process_metrics metric_count p ctx metrics =
        metrics_with metric_count p ctx metrics
          (header_of p.tenant_id_header_name ctx.incoming (metric_count metrics))
