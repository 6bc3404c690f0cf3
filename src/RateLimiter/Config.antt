-- ===== src/RateLimiter/Config.antt =====
-- processors/ratelimiter/config.go, metrics.go and the defaults of factory.go.
use hypertrace_collector.Prelude.{ℕ, List, [], ◌∷◌, Str, str}
use hypertrace_collector.Pdata.Telemetry.{View, tag_tenant_id}

-- `service_port` is a uint16, `timeout_millis` a uint32.
pub record Config : Type 0 where
  pub service_host : Str
  pub service_port : ℕ
  pub domain : Str
  pub tenant_id_header_name : Str
  pub timeout_millis : ℕ

abbrev pub default_service_host : Str
unfolding str
default_service_host = str "127.0.0.1"

abbrev pub default_service_port : ℕ
default_service_port = 8081

abbrev pub default_domain : Str
unfolding str
default_domain = str "collector"

abbrev pub default_header_name : Str
unfolding str
default_header_name = str "x-tenant-id"

-- 1 second
abbrev pub default_timeout_millis : ℕ
default_timeout_millis = 1000

abbrev pub create_default_config : Config
create_default_config = record {
  service_host = default_service_host;
  service_port = default_service_port;
  domain = default_domain;
  tenant_id_header_name = default_header_name;
  timeout_millis = default_timeout_millis;
}

abbrev pub dropped_span_count : Str
unfolding str
dropped_span_count = str "tenant_id_dropped_span_count"

abbrev pub rate_limit_service_calls_count : Str
unfolding str
rate_limit_service_calls_count = str "tenant_id_rate_limit_service_calls_count"

abbrev pub metric_views : List View
metric_views =
    record {
      name = dropped_span_count;
      description = str "Number of spans dropped per tenant due to rate limiting";
      measure = dropped_span_count;
      tag_keys = tag_tenant_id ∷ [];
    }
    ∷ record {
      name = rate_limit_service_calls_count;
      description = str "Number of calls to rate limiter service from collector";
      measure = rate_limit_service_calls_count;
      tag_keys = tag_tenant_id ∷ [];
    }
    ∷ []
