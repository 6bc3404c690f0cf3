-- ===== src/Pipeline.antt =====
-- The tenant id processor (processors/tenantidprocessor) followed by the rate limiter
-- (processors/ratelimiter), as the rate limiter's configuration asks for: both read the tenant from the
-- incoming metadata, and the second gets the context and the traces that the first was given and
-- returned.
pub mod Intake
use hypertrace_collector.Prelude.{
  ℕ, ◌%◌, ◌^◌, ◌≡◌, refl, ap, ◌∙◌, sym, ◌⊎◌, inr, false, none, some, List, [], ◌∷◌, ◌++◌, Str,
  str_eq, arith,
}
use hypertrace_collector.Prelude.All.{All}
use hypertrace_collector.Pdata.Attributes.{AttributeMap}
use hypertrace_collector.Pdata.Traces.{Traces, resource_maps}
use hypertrace_collector.Pdata.Telemetry.{TagMap, Context}
use hypertrace_collector.TenantId.Config.{TenantIdProcessor}
use hypertrace_collector.TenantId.Process.{process_traces}
use hypertrace_collector.TenantId.Process.Outcomes.{
  NamesTenant, process_traces-stamps, process_traces-succeeds,
}
use hypertrace_collector.RateLimiter.Consume.{
  RateLimiter, Request, Code, get_tenant_id, consume_traces, tenant_spans,
}
use hypertrace_collector.RateLimiter.Consume.Requests.{consume_traces-asks}

pub longer_differs : (s : Str) → str_eq s (s ++ 0 ∷ []) ≡ false
unfolding str_eq
longer_differs [] = refl
longer_differs (c ∷ s) = ground (arith, longer_differs s)

tenant_found :
    {T : Type 0} (p : TenantIdProcessor) (q : RateLimiter) (ctx : Context T) (t : Str)
    → p.tenant_id_header_name ≡ q.tenant_id_header_name
    → NamesTenant p ctx t
    → get_tenant_id q ctx ≡ inr t
unfolding get_tenant_id
tenant_found p q ctx t same (get, e, h) =
    let h' : get q.tenant_id_header_name ≡ t ∷ [] = ap get (sym same) ∙ h in rw (e, h') refl

module _ {M V T E : Type 0} (attrs : AttributeMap M V) (tagging : TagMap T)
    (should_rate_limit : Request → E ⊎ List Code) (span_count : Traces M → ℕ)
    (p : TenantIdProcessor) (q : RateLimiter) (ctx : Context T) (traces : Traces M) where
  -- Where both processors read the same header, and the tenant id processor accepts a batch, the rate
  -- limiter asks the service about the tenant that every resource of the batch it gets was stamped
  -- with, and about that batch's span count modulo 2 ^ 32.
  pub consume_traces-stamped :
      p.tenant_id_header_name ≡ q.tenant_id_header_name
      → (process_traces attrs tagging span_count p ctx traces).error ≡ none
      → let batch = (process_traces attrs tagging span_count p ctx traces).result in
        (t : Str) × All
          (λ m. attrs.get m p.tenant_id_attribute_key ≡ some (attrs.str_value t))
          (resource_maps batch)
        × ((consume_traces tagging should_rate_limit span_count q ctx batch).asked
            ≡ some (record {
              domain = q.domain;
              descriptors = ((tenant_spans, t) ∷ []) ∷ [];
              hits_addend = span_count batch % 2 ^ 32;
            }))
  consume_traces-stamped same accepted =
      let (t, named) = (process_traces-succeeds attrs tagging span_count p ctx traces).0 accepted in
      let key = p.tenant_id_attribute_key in
      let stamps =
        process_traces-stamps attrs tagging span_count p ctx traces t (key ++ 0 ∷ []) named
          (longer_differs key) in
      let batch = (process_traces attrs tagging span_count p ctx traces).result in
      (
        t,
        stamps.1,
        (consume_traces-asks tagging should_rate_limit span_count q ctx batch t
            (tenant_found p q ctx t same named)).0,
      )
