-- ===== src/Tests/Pipeline.antt =====
-- The tenant id processor and the rate limiter in a row, at a concrete input.
use hypertrace_collector.Prelude.{◌%◌, ◌^◌, ◌≡◌, refl, some, [], ◌∷◌, Str, str}
use hypertrace_collector.Prelude.All.{All}
use hypertrace_collector.Prelude.GoMap.{lookup}
use hypertrace_collector.Pdata.Traces.{resource_maps}
use hypertrace_collector.TenantId.Process.{process_traces}
use hypertrace_collector.RateLimiter.Consume.{consume_traces, tenant_spans}
use hypertrace_collector.Pipeline.{consume_traces-stamped}
use hypertrace_collector.Tests.Sample.{attrs, tags, span_count}
use hypertrace_collector.Tests.TenantId.{ctx, traces, processor}
use hypertrace_collector.Tests.RateLimiter.{limiter, fine}

consume_traces-stamped_example :
    let batch = (process_traces attrs tags span_count processor ctx traces).result in
    (t : Str) × All (λ m. lookup processor.tenant_id_attribute_key m ≡ some t) (resource_maps batch)
    × ((consume_traces tags fine span_count limiter ctx batch).asked
        ≡ some (record {
          domain = limiter.domain;
          descriptors = ((tenant_spans, t) ∷ []) ∷ [];
          hits_addend = span_count batch % 2 ^ 32;
        }))
consume_traces-stamped_example =
    consume_traces-stamped attrs tags fine span_count processor limiter ctx traces
      (unfold str in refl) (unfold process_traces in refl)
