-- ===== src/RateLimiter/Consume/Decisions.antt =====
-- When the rate limiter drops a batch, and what it does with one that it lets through.
use hypertrace_collector.Prelude.{
  Option, str, ◌%◌, ◌^◌, ℕ, ◌≡◌, refl, ap, ◌↔◌, ◌⊎◌, inl, inr, none, some, List, [], ◌∷◌, Str,
  arith,
}
use hypertrace_collector.Pdata.Traces.{Traces}
use hypertrace_collector.Pdata.Telemetry.{TagMap, Measurement, Context}
use hypertrace_collector.RateLimiter.Consume.{
  Code, unknown, ok, over_limit, other_code, Request, Error, RateLimiter, no_tenant, answered,
  one_header, get_tenant_id, u32, request, tenant_spans, consume_traces,
}

module _ {M T E : Type 0} (r : Request) (t : Str) (ctx : Context T) (traces : Traces M) (n : ℕ)
    (calls : List (Measurement T)) where
  answered-dropped :
      (a : E ⊎ List Code)
      → (answered r t ctx traces n calls a).forwarded ≡ none
      → a ≡ inr (over_limit ∷ [])
  unfolding answered
  answered-dropped (inl e) h = cc
  answered-dropped (inr []) h = cc
  answered-dropped (inr (unknown ∷ [])) h = cc
  answered-dropped (inr (ok ∷ [])) h = cc
  answered-dropped (inr (other_code n ∷ [])) h = cc
  answered-dropped (inr (over_limit ∷ [])) h = refl
  answered-dropped (inr (c ∷ d ∷ cs)) h = ground arith

  answered-forwarded :
      (a : E ⊎ List Code) (c : Context T) (ts : Traces M)
      → (answered r t ctx traces n calls a).forwarded ≡ some (c, ts)
      → (c ≡ ctx) × (ts ≡ traces)
  unfolding answered
  answered-forwarded (inl e) c ts h = (cc, cc)
  answered-forwarded (inr []) c ts h = (cc, cc)
  answered-forwarded (inr (unknown ∷ [])) c ts h = (cc, cc)
  answered-forwarded (inr (ok ∷ [])) c ts h = (cc, cc)
  answered-forwarded (inr (other_code n ∷ [])) c ts h = (cc, cc)
  answered-forwarded (inr (over_limit ∷ [])) c ts h = cc
  answered-forwarded (inr (x ∷ d ∷ cs)) c ts h = (ground arith, ground arith)

-- The incoming metadata has the tenant's header with this value alone.
abbrev pub NamesOne : {T : Type 0} → RateLimiter → Context T → Str → Type 0
NamesOne p ctx t =
    (get : Str → List Str) × (ctx.incoming ≡ some get) × (get p.tenant_id_header_name ≡ t ∷ [])

one_header-alone :
    (name : Str) (values : List Str) (t : Str) → one_header name values ≡ inr t → values ≡ t ∷ []
one_header-alone name [] t h = cc
one_header-alone name (v ∷ []) t h = cc
one_header-alone name (v ∷ w ∷ rest) t h = cc

get_tenant_id_iff :
    {T : Type 0} (p : RateLimiter) (ctx : Context T) (t : Str)
    → (get_tenant_id p ctx ≡ inr t) ↔ NamesOne p ctx t
unfolding get_tenant_id
get_tenant_id_iff p ctx t = (go ctx.incoming refl, λ (get, e, h). rw (get_tenant_id, e, h) refl)
  where
    go :
        (o : Option (Str → List Str))
        → ctx.incoming ≡ o
        → get_tenant_id p ctx ≡ inr t
        → NamesOne p ctx t
    go none e h = cc (rw (get_tenant_id, e) at h)
    go (some get) e h = (
      get,
      e,
      one_header-alone p.tenant_id_header_name (get p.tenant_id_header_name) t
          (rw (get_tenant_id, e) at h),
    )

module _ {M T E : Type 0} (tagging : TagMap T) (should_rate_limit : Request → E ⊎ List Code)
    (span_count : Traces M → ℕ) (p : RateLimiter) (ctx : Context T) (traces : Traces M) where
  answer-dropped :
      ((consume_traces tagging should_rate_limit span_count p ctx traces).forwarded ≡ none) ↔ (
        (t : Str) × (get_tenant_id p ctx ≡ inr t)
        × (should_rate_limit (request p t (u32 (span_count traces))) ≡ inr (over_limit ∷ [])))
  unfolding consume_traces
  answer-dropped = (go (get_tenant_id p ctx) refl, λ (t, e, h). dropped_by t e h)
    where
      dropped_by :
          (t : Str)
          → get_tenant_id p ctx ≡ inr t
          → should_rate_limit (request p t (u32 (span_count traces))) ≡ inr (over_limit ∷ [])
          → (consume_traces tagging should_rate_limit span_count p ctx traces).forwarded ≡ none
      dropped_by t e h = rw (e, h)

      go :
          (g : Error ⊎ Str)
          → get_tenant_id p ctx ≡ g
          → (consume_traces tagging should_rate_limit span_count p ctx traces).forwarded ≡ none
          → (t : Str) × (get_tenant_id p ctx ≡ inr t)
            × (should_rate_limit (request p t (u32 (span_count traces))) ≡ inr (over_limit ∷ []))
      go (inl x) e h = cc (rw e at h)
      go (inr t) e h = (t, e, answered-dropped _ _ _ _ _ _ _ (rw e at h))

  -- A batch is dropped exactly when the incoming metadata has one value of the tenant's header and the service,
  -- asked in the configured domain about that tenant with the batch's span count, as a 32-bit number, for the
  -- hits to add, answers with the single status OVER_LIMIT. On every other answer, on a failing call, and where
  -- the header is missing or has several values, the batch is handed on.
  pub consume_traces-dropped :
      ((consume_traces tagging should_rate_limit span_count p ctx traces).forwarded ≡ none) ↔ (
        (t : Str) × NamesOne p ctx t
        × (should_rate_limit (record {
          domain = p.domain;
          descriptors = ((str "tenant_spans", t) ∷ []) ∷ [];
          hits_addend = span_count traces % 2 ^ 32;
        })
            ≡ inr (over_limit ∷ [])))
  unfolding request str tenant_spans
  consume_traces-dropped = (
    λ h. let (t, e, a) = answer-dropped.0 h in (t, (get_tenant_id_iff p ctx t).0 e, a),
    λ (t, one, a). answer-dropped.1 (t, (get_tenant_id_iff p ctx t).1 one, a),
  )

  -- A batch that is handed on is handed on unchanged, under a context with the same incoming metadata.
  consume_traces-forwarded :
      (c : Context T) (ts : Traces M)
      → (consume_traces tagging should_rate_limit span_count p ctx traces).forwarded ≡ some (c, ts)
      → (ts ≡ traces) × (c.incoming ≡ ctx.incoming)
  unfolding consume_traces
  consume_traces-forwarded c ts = go (get_tenant_id p ctx) refl
    where
      go :
          (g : Error ⊎ Str)
          → get_tenant_id p ctx ≡ g
          → (consume_traces tagging should_rate_limit span_count p ctx traces).forwarded
            ≡ some (c, ts)
          → (ts ≡ traces) × (c.incoming ≡ ctx.incoming)
      go (inl x) e h = let h' = rw e at h in (cc, cc)
      go (inr t) e h =
          let (ec, et) = answered-forwarded _ _ _ _ _ _ _ c ts (rw e at h) in
          (et, ap (λ k. k.incoming) ec)

  -- Without a tenant the service is not asked, nothing is recorded, and the batch is handed on under
  -- its own context.
  consume_traces-no_tenant :
      (x : Error)
      → get_tenant_id p ctx ≡ inl x
      → consume_traces tagging should_rate_limit span_count p ctx traces ≡ record {
        asked = none;
        forwarded = some (ctx, traces);
        recorded = [];
        logged = no_tenant x ∷ [];
      }
  unfolding consume_traces
  consume_traces-no_tenant x e = rw e
