-- ===== src/Command.antt =====
-- cmd/collector/main.go: the factories that the collector is built with, and the views that it
-- registers. The factories of other repositories, MakeFactoryMap, view.Register and the command that
-- runs the collector are parameters.
pub mod Registered
use hypertrace_collector.Prelude.{◌⊎◌, inl, inr, Option, none, some, List, [], ◌∷◌, ◌++◌, Str, str}
use hypertrace_collector.Prelude.GoMap.{GoMap, insert}
use hypertrace_collector.Pdata.Telemetry.{View}
use hypertrace_collector.TenantId.Config as TenantIdConfig
use hypertrace_collector.SpanCounter.Config as SpanCounterConfig
use hypertrace_collector.RateLimiter.Config as RateLimiterConfig

-- A factory has a type; `F` is what it makes.
pub record Factory (F : Type 0) : Type 0 where
  pub type_name : Str
  pub makes : F

-- otelcol.Factories
pub record Factories (F : Type 0) : Type 0 where
  pub extensions : GoMap (Factory F)
  pub receivers : GoMap (Factory F)
  pub processors : GoMap (Factory F)
  pub exporters : GoMap (Factory F)

-- The factories of this repository, by what they make.
pub record Own (F : Type 0) : Type 0 where
  pub jaeger_receiver : F
  pub tenantidprocessor : F
  pub ratelimiter : F
  pub metricresourceattrstoattrs : F
  pub metricremover : F
  pub spancounter : F
  pub kafkaexporter : F
  pub prometheusexporter : F

-- The factories of other repositories.
pub record Others (F : Type 0) : Type 0 where
  pub zpages : Factory F
  pub ballast : Factory F
  pub otlp_receiver : Factory F
  pub logging : Factory F
  pub otlp_exporter : Factory F
  pub otlphttp : Factory F
  pub batch : Factory F
  pub memorylimiter : Factory F
  pub healthcheck : Factory F
  pub pprof : Factory F
  pub zipkin : Factory F
  pub opencensus : Factory F
  pub prometheus_receiver : Factory F
  pub routing : Factory F
  pub filter : Factory F
  pub file : Factory F

-- The types of this repository's factories.
abbrev pub jaeger_type : Str
jaeger_type = str "jaeger"

abbrev pub tenantid_type : Str
tenantid_type = str "hypertrace_tenantid"

abbrev pub ratelimiter_type : Str
ratelimiter_type = str "hypertrace_ratelimiter"

abbrev pub attrs_to_attrs_type : Str
attrs_to_attrs_type = str "hypertrace_metrics_resource_attrs_to_attrs"

abbrev pub metricremover_type : Str
metricremover_type = str "hypertrace_metrics_remover"

abbrev pub spancounter_type : Str
spancounter_type = str "hypertrace_spancounter"

abbrev pub kafka_type : Str
kafka_type = str "kafka"

abbrev pub prometheus_type : Str
prometheus_type = str "prometheus"

-- `m[f.Type()] = f`
abbrev pub add : {F : Type 0} → Factory F → GoMap (Factory F) → GoMap (Factory F)
add f m = insert f.type_name f m

abbrev pub own : {F : Type 0} → Str → F → Factory F
own name f = record { type_name = name; makes = f }

-- The result of MakeFactoryMap: the map, and the error of a duplicate type.
pub record Made (F E : Type 0) : Type 0 where
  pub factories : GoMap (Factory F)
  pub error : Option E

-- `multierr.Append`: an error that is not nil joins those before it.
abbrev pub append_error : {E : Type 0} → List E → Option E → List E
append_error errs none = errs
append_error errs (some e) = errs ++ e ∷ []

module _ {F : Type 0} (o : Others F) where
  -- The assignments of components.
  unfoldable pub with_components : Own F → Factories F → Factories F
  with_components w fs = record {
    extensions = add o.pprof (add o.healthcheck fs.extensions);
    receivers =
        add o.prometheus_receiver
          (add (own jaeger_type w.jaeger_receiver) (add o.opencensus (add o.zipkin fs.receivers)));
    processors = add o.filter (
        add (own spancounter_type w.spancounter) (
          add o.routing (
            add (own metricremover_type w.metricremover) (
              add (own attrs_to_attrs_type w.metricresourceattrstoattrs) (
                add (own ratelimiter_type w.ratelimiter)
                  (add (own tenantid_type w.tenantidprocessor) fs.processors))))));
    exporters =
        add (own prometheus_type w.prometheusexporter)
          (add (own kafka_type w.kafkaexporter) (add o.file fs.exporters));
  }

  module _ {E : Type 0} (make_factory_map : List (Factory F) → Made F E) where
    -- defaultComponents: the factories, and the errors.
    unfoldable pub default_components : Factories F × List E
    default_components =
        let extensions = make_factory_map (o.zpages ∷ o.ballast ∷ []) in
        let receivers = make_factory_map (o.otlp_receiver ∷ []) in
        let exporters = make_factory_map (o.logging ∷ o.otlp_exporter ∷ o.otlphttp ∷ []) in
        let processors = make_factory_map (o.batch ∷ o.memorylimiter ∷ []) in
        (
          record {
            extensions = extensions.factories;
            receivers = receivers.factories;
            processors = processors.factories;
            exporters = exporters.factories;
          },
          append_error
              (append_error (append_error (append_error [] extensions.error) receivers.error)
                exporters.error)
              processors.error,
        )

    -- The test of components on the errors of defaultComponents.
    pub if_no_errors : Own F → Factories F × List E → List E ⊎ Factories F
    if_no_errors w (fs, []) = inr (with_components w fs)
    if_no_errors w (fs, e ∷ es) = inl (e ∷ es)

    -- components
    unfoldable pub components : Own F → List E ⊎ Factories F
    unfolding if_no_errors default_components
    components w = if_no_errors w default_components

-- registerMetricViews: what it registers.
abbrev pub registered_views : List View
registered_views =
    TenantIdConfig.metric_views
    ++ (SpanCounterConfig.metric_views ++ RateLimiterConfig.metric_views)

-- run: the error of the command is wrapped.
pub data RunError (E : Type 0) : Type 0 where
  run_finished : E → RunError E

abbrev pub run : {E : Type 0} → Option E → Option (RunError E)
run none = none
run (some e) = some (run_finished e)

-- What ends main: a failure of registerMetricViews or of run is fatal; components is called by the
-- command.
pub data Exit (E : Type 0) : Type 0 where
  views_failed : E → Exit E
  run_failed : RunError E → Exit E
  done : Exit E

abbrev pub exit_of : {E : Type 0} → Option (RunError E) → Exit E
exit_of none = done
exit_of (some e) = run_failed e

-- main; `register` is view.Register.
unfoldable pub main : {E : Type 0} → (List View → Option E) → Option E → Exit E
main register executed = elim (register registered_views) [
  | some e ↦ views_failed e
  | none ↦ exit_of (run executed)
]
