-- ===== src/RateLimiter/Consume/Requests.antt =====
-- What the rate limiter asks the service, what it counts, and what its caller gets.
use hypertrace_collector.Prelude.{
  ℕ, ◌%◌, ◌^◌, ◌≡◌, refl, ◌⊎◌, inl, inr, Option, none, some, List, [], ◌∷◌, Str, arith,
}
use hypertrace_collector.Pdata.Traces.{Traces}
use hypertrace_collector.Pdata.Telemetry.{TagMap, Measurement, Context, tag_tenant_id}
use hypertrace_collector.RateLimiter.Config.{dropped_span_count, rate_limit_service_calls_count}
use hypertrace_collector.RateLimiter.Consume.{
  Code, unknown, ok, over_limit, other_code, Request, RateLimiter, answered, get_tenant_id, request,
  tenant_spans, consume_traces,
}

-- What is counted for a call: the call, and the spans if the batch was dropped.
abbrev pub counted : {T A : Type 0} → T → ℕ → Option A → List (Measurement T)
counted tags n (some _) =
    record { measure = rate_limit_service_calls_count; tags = tags; amount = 1 } ∷ []
counted tags n none =
    record { measure = rate_limit_service_calls_count; tags = tags; amount = 1 }
    ∷ record { measure = dropped_span_count; tags = tags; amount = n }
    ∷ []

module _ {M T E : Type 0} (r : Request) (t : Str) (ctx : Context T) (traces : Traces M)
    (n : ℕ) where
  answered-asked :
      (calls : List (Measurement T)) (a : E ⊎ List Code)
      → (answered r t ctx traces n calls a).asked ≡ some r
  unfolding answered
  answered-asked calls (inl e) = refl
  answered-asked calls (inr []) = refl
  answered-asked calls (inr (unknown ∷ [])) = refl
  answered-asked calls (inr (ok ∷ [])) = refl
  answered-asked calls (inr (other_code n ∷ [])) = refl
  answered-asked calls (inr (over_limit ∷ [])) = refl
  answered-asked calls (inr (x ∷ d ∷ cs)) = ground arith

  answered-recorded :
      (a : E ⊎ List Code)
      → let o =
          answered r t ctx traces n
            (record { measure = rate_limit_service_calls_count; tags = ctx.tags; amount = 1 } ∷ [])
            a in
        o.recorded ≡ counted ctx.tags n o.forwarded
  unfolding answered
  answered-recorded (inl e) = refl
  answered-recorded (inr []) = refl
  answered-recorded (inr (unknown ∷ [])) = refl
  answered-recorded (inr (ok ∷ [])) = refl
  answered-recorded (inr (other_code n ∷ [])) = refl
  answered-recorded (inr (over_limit ∷ [])) = refl
  answered-recorded (inr (x ∷ d ∷ cs)) = ground arith

module _ {M T E : Type 0} (tagging : TagMap T) (should_rate_limit : Request → E ⊎ List Code)
    (span_count : Traces M → ℕ) (p : RateLimiter) (ctx : Context T) (traces : Traces M) where
  -- With a tenant the service is asked once, for that tenant in the configured domain, about the span
  -- count modulo 2^32. The call is counted under the tenant's tag; if the batch is dropped, that many
  -- spans are counted as dropped too, and otherwise nothing more.
  pub consume_traces-asks :
      (t : Str)
      → get_tenant_id p ctx ≡ inr t
      → let o = consume_traces tagging should_rate_limit span_count p ctx traces in
        (o.asked
          ≡ some (record {
            domain = p.domain;
            descriptors = ((tenant_spans, t) ∷ []) ∷ [];
            hits_addend = span_count traces % 2 ^ 32;
          }))
        × (o.recorded
            ≡ counted
                (tagging.insert ctx.tags tag_tenant_id t)
                (span_count traces % 2 ^ 32)
                o.forwarded)
  unfolding consume_traces request
  consume_traces-asks t e = rw e (answered-asked _ _ _ _ _ _ _, answered-recorded _ _ _ _ _ _)
