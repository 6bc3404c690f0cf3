-- ===== src/Prometheus/Exporter.antt =====
-- exporter/prometheusexporter/prometheus.go, with the settings of config.go and factory.go: the
-- exporter around the accumulator and the collector. Its HTTP server, its listener and
-- strings.TrimSpace are parameters; the calls of ConsumeMetrics and of Collect come one after the
-- other. The none of a call is a panic.
pub mod Calls
use hypertrace_collector.Prelude.{
  ℕ, ◌+◌, ◌*◌, Bool, true, false, ◌⊎◌, inl, inr, Option, none, some, List, [], ◌∷◌, Str, is_empty,
  if◌then◌else◌,
}
use hypertrace_collector.Pdata.Attributes.{AttributeMap}
use hypertrace_collector.Pdata.Metrics.{Metric, ResourceMetrics, Metrics}
use hypertrace_collector.Prometheus.Signature.{MetricType}
use hypertrace_collector.Prometheus.Histogram.{Float}
use hypertrace_collector.Prometheus.LastValues.{Registry}
use hypertrace_collector.Prometheus.Accumulator.{accumulate, collect}
use hypertrace_collector.Prometheus.Convert.{Config, Collector, new_collector}

-- Config: the endpoint and the other settings of the HTTP server, which `H` stands for, what the
-- collector reads, and the flags of the handler and of the resource attributes.
pub record ExporterConfig (H : Type 0) : Type 0 where
  pub endpoint : Str
  pub http : H
  pub collector : Config
  pub resource_to_telemetry : Bool
  pub enable_open_metrics : Bool

-- `time.Minute * 5`, in nanoseconds
abbrev pub five_minutes : ℕ
five_minutes = 300000000000

-- createDefaultConfig; `http` is the zero value of the server's settings.
unfoldable pub create_default_config : {H : Type 0} → H → ExporterConfig H
create_default_config http = record {
  endpoint = [];
  http = http;
  collector = record {
    namespace = [];
    const_labels = [];
    send_timestamps = false;
    metric_expiration = five_minutes;
    add_metric_suffixes = true;
  };
  resource_to_telemetry = false;
  enable_open_metrics = false;
}

-- What shutdownFunc is: the function that does nothing, or the Close of a listener.
pub data ShutdownFunc (L : Type 0) : Type 0 where
  nothing : ShutdownFunc L
  close_listener : L → ShutdownFunc L

-- prometheusExporter, without its handler and the names that it logs.
pub record Exporter (H L M D : Type 0) : Type 0 where
  pub config : ExporterConfig H
  pub endpoint : Str
  pub shutdown_func : ShutdownFunc L
  pub collector : Collector
  pub registered : Registry M D

-- errBlankPrometheusAddress
pub data NewError : Type 0 where
  blank_address : NewError

-- newPrometheusExporter, with the translator's CleanUpString.
unfoldable pub new_prometheus_exporter :
    {H L M D : Type 0} → (Str → Str) → (Str → Str) → ExporterConfig H → NewError ⊎ Exporter H L M D
unfolding new_collector
new_prometheus_exporter trim_space clean_up_string config =
    let addr = trim_space config.endpoint in
    if is_empty addr
    then inl blank_address
    else inr (record {
      config = config;
      endpoint = addr;
      shutdown_func = nothing;
      collector = new_collector clean_up_string config.collector;
      registered = [];
    })

-- What Start leaves behind: the exporter, its error, and the server that a goroutine serves at a
-- listener.
pub record Started (H L S M D E : Type 0) : Type 0 where
  pub exporter : Exporter H L M D
  pub error : Option E
  pub serving : Option (S × L)

module _ {H L S M D E : Type 0} (to_listener : ExporterConfig H → E ⊎ L)
    (to_server : ExporterConfig H → E ⊎ S) where
  -- Start, after ToListener and after ToServer.
  pub serve_at : L → Exporter H L M D → E ⊎ S → Started H L S M D E
  serve_at ln pe (inl e) = record { exporter = pe; error = some e; serving = none }
  serve_at ln pe (inr srv) = record { exporter = pe; error = none; serving = some (srv, ln) }

  pub start_at : Exporter H L M D → E ⊎ L → Started H L S M D E
  unfolding serve_at
  start_at pe (inl e) = record { exporter = pe; error = some e; serving = none }
  start_at pe (inr ln) =
      serve_at ln (record pe { shutdown_func = close_listener ln }) (to_server pe.config)

  -- Start
  unfoldable pub start : Exporter H L M D → Started H L S M D E
  unfolding start_at
  start pe = start_at pe (to_listener pe.config)

-- Shutdown: the listener that it closes, and its error.
abbrev pub shutdown : {H L M D E : Type 0} → (L → Option E) → Exporter H L M D → Option L × Option E
shutdown close pe = elim pe.shutdown_func [
  | nothing ↦ (none, none)
  | close_listener ln ↦ (some ln, close ln)
]

module _ {M V D : Type 0} (attrs : AttributeMap M V) (type_string : MetricType → Str)
    (float : Float D) where
  -- The loop of ConsumeMetrics from the resource `i` on; `clock` is `time.Now()` in the call of
  -- Accumulate for each resource.
  unfoldable pub consume_resources :
      (ℕ → ℕ) → ℕ → Metrics M D → Registry M D → ℕ → Option (Registry M D × ℕ)
  unfolding accumulate
  consume_resources clock i [] reg n = some (reg, n)
  consume_resources clock i (rm ∷ rms) reg n =
      elim (accumulate attrs type_string float (clock i) rm reg) [
        | none ↦ none
        | some (reg', k) ↦ consume_resources clock (i + 1) rms reg' (n + k)
      ]

  -- ConsumeMetrics, which never returns an error: the registry after it.
  unfoldable pub consume_metrics : (ℕ → ℕ) → Metrics M D → Registry M D → Option (Registry M D)
  unfolding consume_resources
  consume_metrics clock md reg = elim (consume_resources clock 0 md reg 0) [
    | none ↦ none
    | some (reg', n) ↦ some reg'
  ]

  -- The calls that reach an exporter: of ConsumeMetrics, and of Collect at a time.
  unfoldable pub run_calls :
      ℕ
      → List (((ℕ → ℕ) × Metrics M D) ⊎ ℕ)
      → Registry M D
      → Option (Registry M D × List (List (Metric M D × M)))
  unfolding consume_metrics collect
  run_calls expiration [] reg = some (reg, [])
  run_calls expiration (inl (clock, md) ∷ calls) reg = elim (consume_metrics clock md reg) [
    | none ↦ none
    | some reg' ↦ run_calls expiration calls reg'
  ]
  run_calls expiration (inr now ∷ calls) reg =
      let (reg', out) = collect now expiration reg in
      elim (run_calls expiration calls reg') [
        | none ↦ none
        | some (last, outs) ↦ some (last, out ∷ outs)
      ]
