-- ===== src/Tests/Wiring.antt =====
-- What the collector and its factories are built with, and the target of the rate limiter, at concrete
-- inputs.
use hypertrace_collector.Prelude.{ℕ, ◌≡◌, refl, ◌⊎◌, inr, none, List, [], ◌∷◌, Str, str, str_eq}
use hypertrace_collector.Prelude.GoMap.{GoMap}
use hypertrace_collector.Prelude.Decimal.{read_digits}
use hypertrace_collector.Prelude.HostPort.{has_byte, split_host_port}
use hypertrace_collector.RateLimiter.Config.{Config}
use hypertrace_collector.RateLimiter.Lifecycle.{create_trace_processor}
use hypertrace_collector.RateLimiter.Lifecycle.Target.{create_trace_processor-target}
use hypertrace_collector.Command.{
  Factory, Factories, Own, Others, Made, components, default_components, with_components,
}
use hypertrace_collector.Command.Registered.{NoClash, Registers, components-Registers}

abbrev dial : Str × ℕ → Str ⊎ ℕ
dial target = inr 1

-- An IPv6 host, which is dialled in brackets.
abbrev settings : Config
settings = record {
  service_host = str "::1";
  service_port = 8081;
  domain = str "collector";
  tenant_id_header_name = str "x-tenant-id";
  timeout_millis = 1000;
}

create_trace_processor-target_example :
    (port : Str) × (split_host_port (create_trace_processor dial settings).dialled.0
      ≡ inr (str "::1", port))
    × (read_digits 0 port ≡ 8081)
create_trace_processor-target_example =
    create_trace_processor-target dial settings (unfold has_byte str in refl)
      (unfold has_byte str in refl)

-- The factories are made with what their name says.
abbrev named : Str → Factory Str
named s = record { type_name = s; makes = s }

abbrev others : Others Str
others = record {
  zpages = named (str "zpages");
  ballast = named (str "memory_ballast");
  otlp_receiver = named (str "otlp");
  logging = named (str "logging");
  otlp_exporter = named (str "otlp");
  otlphttp = named (str "otlphttp");
  batch = named (str "batch");
  memorylimiter = named (str "memory_limiter");
  healthcheck = named (str "health_check");
  pprof = named (str "pprof");
  zipkin = named (str "zipkin");
  opencensus = named (str "opencensus");
  prometheus_receiver = named (str "prometheus");
  routing = named (str "routing");
  filter = named (str "filter");
  file = named (str "file");
}

abbrev own_factories : Own Str
own_factories = record {
  jaeger_receiver = str "a";
  tenantidprocessor = str "b";
  ratelimiter = str "c";
  metricresourceattrstoattrs = str "d";
  metricremover = str "e";
  spancounter = str "f";
  kafkaexporter = str "g";
  prometheusexporter = str "h";
}

abbrev all_of : List (Factory Str) → GoMap (Factory Str)
all_of [] = []
all_of (f ∷ fs) = (f.type_name, f) ∷ all_of fs

abbrev make : List (Factory Str) → Made Str Str
make fs = record { factories = all_of fs; error = none }

no_clash : NoClash others
unfolding str str_eq
no_clash = record {
  filter = (refl, (refl, (refl, (refl, (refl, tt)))));
  routing = (refl, (refl, (refl, (refl, (refl, tt)))));
  prometheus = refl;
}

abbrev built : Factories Str
built = with_components others own_factories (default_components others make).0

components-Registers_example : Registers own_factories built
components-Registers_example =
    components-Registers others own_factories make no_clash built
      (unfold components default_components in refl)
