-- ===== src/Tests/RateLimiter.antt =====
-- The rate limiter at concrete inputs.
use hypertrace_collector.Prelude.{◌%◌, ◌^◌, ◌≡◌, ◌↔◌, ◌⊎◌, inr, none, List, [], ◌∷◌, Str, str}
use hypertrace_collector.RateLimiter.Consume.{
  Code, ok, over_limit, Request, RateLimiter, consume_traces,
}
use hypertrace_collector.RateLimiter.Consume.Decisions.{NamesOne, consume_traces-dropped}
use hypertrace_collector.Tests.Sample.{tags, span_count}
use hypertrace_collector.Tests.TenantId.{ctx, traces}

abbrev pub limiter : RateLimiter
limiter = record { domain = str "collector"; tenant_id_header_name = str "x-tenant-id" }

abbrev over : Request → Str ⊎ List Code
over r = inr (over_limit ∷ [])

abbrev pub fine : Request → Str ⊎ List Code
fine r = inr (ok ∷ [])

consume_traces-dropped_example :
    ((consume_traces tags over span_count limiter ctx traces).forwarded ≡ none) ↔ (
      (t : Str) × NamesOne limiter ctx t
      × (over (record {
        domain = limiter.domain;
        descriptors = ((str "tenant_spans", t) ∷ []) ∷ [];
        hits_addend = span_count traces % 2 ^ 32;
      })
          ≡ inr (over_limit ∷ [])))
consume_traces-dropped_example = consume_traces-dropped tags over span_count limiter ctx traces
