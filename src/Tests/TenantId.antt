-- ===== src/Tests/TenantId.antt =====
-- The tenant id processor at concrete inputs.
use hypertrace_collector.Prelude.{ℕ, ◌≡◌, refl, false, none, some, List, [], ◌∷◌, Str, str}
use hypertrace_collector.Prelude.All.{All}
use hypertrace_collector.Prelude.GoMap.{GoMap, lookup}
use hypertrace_collector.Pdata.Metrics.{Metrics, gauge, empty, int_value, all_maps}
use hypertrace_collector.Pdata.Traces.{Traces}
use hypertrace_collector.Pdata.Telemetry.{Context, tag_tenant_id}
use hypertrace_collector.TenantId.Config.{
  TenantIdProcessor, create_default_config, create_processor, stat_metric_per_tenant,
}
use hypertrace_collector.TenantId.Process.{process_metrics}
use hypertrace_collector.TenantId.Process.Outcomes.{process_metrics-stamps}
use hypertrace_collector.Tests.Sample.{attrs, tags, metric_count}

abbrev pub acme : Str
acme = str "acme"

abbrev pub header_values : Str → List Str
header_values name = acme ∷ []

abbrev pub no_values : Str → List Str
no_values name = []

-- A context with the tenant header, one without it, and one without metadata.
abbrev pub ctx : Context (GoMap Str)
ctx = record { incoming = some header_values; tags = [] }

abbrev pub bare_ctx : Context (GoMap Str)
bare_ctx = record { incoming = some no_values; tags = [] }

abbrev pub processor : TenantIdProcessor
processor = create_processor create_default_config

abbrev pub metrics : Metrics (GoMap Str) ℕ
metrics =
    record {
      resource = [];
      scopes =
          record {
            scope_name = str "s";
            metrics =
                record {
                  name = str "m";
                  description = [];
                  unit = [];
                  points = gauge (
                      record {
                        attributes = (str "a", str "b") ∷ [];
                        start_timestamp = 0;
                        timestamp = 1;
                        no_recorded_value = false;
                        value = int_value 1;
                      }
                      ∷ []);
                }
                ∷ record { name = str "e"; description = []; unit = []; points = empty }
                ∷ [];
          }
          ∷ [];
    }
    ∷ []

abbrev pub traces : Traces (GoMap Str)
traces =
    record {
      resource = (str "service.name", str "web") ∷ [];
      scopes =
          record {
            spans =
                record { name = str "GET"; attributes = (str "a", str "b") ∷ [] }
                ∷ record { name = str "PUT"; attributes = [] }
                ∷ [];
          }
          ∷ [];
    }
    ∷ []

process_metrics-stamps_example :
    let o = process_metrics attrs tags metric_count processor ctx metrics in
    (o.error ≡ none)
    × All (λ m. lookup processor.tenant_id_attribute_key m ≡ some acme) (all_maps o.result)
    × (o.recorded
        ≡ record {
          measure = stat_metric_per_tenant;
          tags = tags.insert [] tag_tenant_id acme;
          amount = metric_count o.result;
        }
          ∷ [])
process_metrics-stamps_example =
    process_metrics-stamps attrs tags metric_count processor ctx metrics acme
      (header_values, refl, refl)
