-- ===== src/TenantId/Config.antt =====
-- processors/tenantidprocessor/config.go, factory.go and metrics.go: the settings, their defaults,
-- the processor that they build, and the views of its measures.
use hypertrace_collector.Prelude.{List, [], ◌∷◌, Str, str}
use hypertrace_collector.Pdata.Telemetry.{View, tag_tenant_id}

pub record Config : Type 0 where
  pub tenant_id_header_name : Str
  pub tenant_id_attribute_key : Str

-- The fields of tenantIdProcessor; its logger is the `logged` part of an outcome.
pub record TenantIdProcessor : Type 0 where
  pub tenant_id_header_name : Str
  pub tenant_id_attribute_key : Str

abbrev pub default_header_name : Str
unfolding str
default_header_name = str "x-tenant-id"

abbrev pub default_attribute_key : Str
unfolding str
default_attribute_key = str "tenant-id"

abbrev pub create_default_config : Config
create_default_config = record {
  tenant_id_header_name = default_header_name;
  tenant_id_attribute_key = default_attribute_key;
}

-- createTraceProcessor and createMetricsProcessor build the same processor.
abbrev pub create_processor : Config → TenantIdProcessor
create_processor c = record {
  tenant_id_header_name = c.tenant_id_header_name;
  tenant_id_attribute_key = c.tenant_id_attribute_key;
}

abbrev pub stat_span_per_tenant : Str
unfolding str
stat_span_per_tenant = str "tenant_id_span_count"

abbrev pub stat_metric_per_tenant : Str
unfolding str
stat_metric_per_tenant = str "tenant_id_metric_count"

abbrev pub metric_views : List View
metric_views =
    record {
      name = stat_span_per_tenant;
      description = str "Number of spans received from a tenant";
      measure = stat_span_per_tenant;
      tag_keys = tag_tenant_id ∷ [];
    }
    ∷ record {
      name = stat_metric_per_tenant;
      description = str "Number of metrics received from a tenant";
      measure = stat_metric_per_tenant;
      tag_keys = tag_tenant_id ∷ [];
    }
    ∷ []
