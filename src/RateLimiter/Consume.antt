-- ===== src/RateLimiter/Consume.antt =====
-- processors/ratelimiter/ratelimiterprocessor.go: ConsumeTraces and getTenantId.
pub mod Decisions
pub mod Requests
use hypertrace_collector.Prelude.{
  ℕ, ◌%◌, ◌^◌, ◌⊎◌, inl, inr, Option, none, some, List, [], ◌∷◌, ◌++◌, Str, str,
}
use hypertrace_collector.Pdata.Traces.{Traces}
use hypertrace_collector.Pdata.Telemetry.{TagMap, Measurement, Context, tag_tenant_id}
use hypertrace_collector.RateLimiter.Config.{dropped_span_count, rate_limit_service_calls_count}

-- pb.RateLimitResponse_Code; a missing status has the code UNKNOWN. `other_code` is a number that the
-- enumeration does not have.
pub data Code : Type 0 where
  unknown ok over_limit : Code
  other_code : ℕ → Code

-- pb.RateLimitRequest; a descriptor is the list of its entries, a key and a value each.
pub record Request : Type 0 where
  pub domain : Str
  pub descriptors : List (List (Str × Str))
  pub hits_addend : ℕ

-- The errors of getTenantId.
pub data Error : Type 0 where
  no_headers : Error
  missing_header : Str → Error
  multiple_headers : Str → List Str → Error

-- What the processor logs. `E` is the error of a call of the service.
pub data Log (E : Type 0) : Type 0 where
  no_tenant : Error → Log E
  service_failed : E → Log E
  dropping : Str → ℕ → Log E
  unexpected_statuses : List Code → Log E

-- The fields of rateLimiterProcessor that ConsumeTraces reads; the service and the next consumer are
-- arguments.
pub record RateLimiter : Type 0 where
  pub domain : Str
  pub tenant_id_header_name : Str

abbrev pub tenant_spans : Str
unfolding str
tenant_spans = str "tenant_spans"

-- What one call does: the request that it sends, what it hands to the next consumer (none: the batch
-- is dropped), what it records and what it logs.
pub record Outcome (M T E : Type 0) : Type 0 where
  pub asked : Option Request
  pub forwarded : Option (Context T × Traces M)
  pub recorded : List (Measurement T)
  pub logged : List (Log E)

abbrev pub one_header : Str → List Str → Error ⊎ Str
one_header name [] = inl (missing_header name)
one_header name (t ∷ []) = inr t
one_header name (t ∷ u ∷ rest) = inl (multiple_headers name (t ∷ u ∷ rest))

-- getTenantId
unfoldable pub get_tenant_id : {T : Type 0} → RateLimiter → Context T → Error ⊎ Str
get_tenant_id p ctx = elim ctx.incoming [
  | none ↦ inl no_headers
  | some get ↦ one_header p.tenant_id_header_name (get p.tenant_id_header_name)
]

-- `uint32(n)`
abbrev pub u32 : ℕ → ℕ
u32 n = n % 2 ^ 32

module _ {M T E : Type 0} where
  -- The tests on `response.Statuses`, for the tenant `t` and the context that carries its tag.
  answered :
      Request
      → Str
      → Context T
      → Traces M
      → ℕ
      → List (Measurement T)
      → E ⊎ List Code
      → Outcome M T E
  answered r t ctx traces n calls (inl e) = record {
    asked = some r;
    forwarded = some (ctx, traces);
    recorded = calls;
    logged = service_failed e ∷ [];
  }
  answered r t ctx traces n calls (inr (over_limit ∷ [])) = record {
    asked = some r;
    forwarded = none;
    recorded = calls ++ record { measure = dropped_span_count; tags = ctx.tags; amount = n } ∷ [];
    logged = dropping t n ∷ [];
  }
  answered r t ctx traces n calls (inr (c ∷ [])) = record {
    asked = some r;
    forwarded = some (ctx, traces);
    recorded = calls;
    logged = [];
  }
  answered r t ctx traces n calls (inr statuses) = record {
    asked = some r;
    forwarded = some (ctx, traces);
    recorded = calls;
    logged = unexpected_statuses statuses ∷ [];
  }

-- The request about a batch of `n` spans of a tenant.
pub request : RateLimiter → Str → ℕ → Request
request p t n = record {
  domain = p.domain;
  descriptors = ((tenant_spans, t) ∷ []) ∷ [];
  hits_addend = n;
}

module _ {M T E : Type 0} (tagging : TagMap T) (should_rate_limit : Request → E ⊎ List Code)
    (span_count : Traces M → ℕ) (p : RateLimiter) where
  consume_for : Context T → Traces M → Error ⊎ Str → Outcome M T E
  unfolding answered request
  consume_for ctx traces (inl e) = record {
    asked = none;
    forwarded = some (ctx, traces);
    recorded = [];
    logged = no_tenant e ∷ [];
  }
  consume_for ctx traces (inr t) =
      let ctx' = record ctx { tags = tagging.insert ctx.tags tag_tenant_id t } in
      let n = u32 (span_count traces) in
      let r = request p t n in
      let calls =
        record { measure = rate_limit_service_calls_count; tags = ctx'.tags; amount = 1 } ∷ [] in
      answered r t ctx' traces n calls (should_rate_limit r)

  -- ConsumeTraces
  unfoldable pub consume_traces : Context T → Traces M → Outcome M T E
  unfolding consume_for get_tenant_id
  consume_traces ctx traces = consume_for ctx traces (get_tenant_id p ctx)

-- The error that ConsumeTraces returns, by what the next consumer returns.
result_of : {M T E N : Type 0} → (Context T → Traces M → Option N) → Outcome M T E → Option N
result_of next o = elim o.forwarded [ none ↦ none | some (ctx, traces) ↦ next ctx traces ]
