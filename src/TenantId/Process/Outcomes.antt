-- ===== src/TenantId/Process/Outcomes.antt =====
-- What ProcessMetrics and ProcessTraces do, on every branch of the tests on the tenant header.
use hypertrace_collector.Prelude.{
  ℕ, ◌≡◌, refl, ◌↔◌, false, Option, none, some, List, [], ◌∷◌, map, Str, str_eq,
}
use hypertrace_collector.Prelude.All.{All}
use hypertrace_collector.Pdata.Attributes.{AttributeMap}
use hypertrace_collector.Pdata.Metrics.{Metrics, all_maps}
use hypertrace_collector.Pdata.Traces.{Traces, resource_maps}
use hypertrace_collector.Pdata.Telemetry.{TagMap, Context, tag_tenant_id}
use hypertrace_collector.TenantId.Config.{
  TenantIdProcessor, stat_span_per_tenant, stat_metric_per_tenant,
}
use hypertrace_collector.TenantId.Process.{
  Header, tenant, refused, Error, header_of, one_header, process_metrics, process_traces,
}
use hypertrace_collector.TenantId.Process.Stamps.{
  all_maps-add, resource_maps-add, All-stamped, other_keys-stamped,
}

-- The request names exactly one tenant.
abbrev pub NamesTenant : {T : Type 0} → TenantIdProcessor → Context T → Str → Type 0
NamesTenant {T} p ctx t =
    (get : Str → List Str) × (ctx.incoming ≡ some get) × (get p.tenant_id_header_name ≡ t ∷ [])

header_of-NamesTenant :
    {T : Type 0} (p : TenantIdProcessor) (ctx : Context T) (t : Str) (n : ℕ)
    → NamesTenant p ctx t
    → header_of p.tenant_id_header_name ctx.incoming n ≡ tenant t
unfolding header_of one_header
header_of-NamesTenant p ctx t n (get, e, h) = rw (e, h)

one_header-tenant : (name t : Str) (vs : List Str) → one_header name vs ≡ tenant t → vs ≡ t ∷ []
unfolding one_header
one_header-tenant name t [] h = cc
one_header-tenant name t (v ∷ []) h = cc
one_header-tenant name t (v ∷ w ∷ vs) h = cc

header_of-tenant :
    {T : Type 0} (p : TenantIdProcessor) (ctx : Context T) (n : ℕ) (t : Str)
    → header_of p.tenant_id_header_name ctx.incoming n ≡ tenant t
    → NamesTenant p ctx t
unfolding header_of
header_of-tenant p ctx n t h = go ctx.incoming refl
  where
    go : (o : Option (Str → List Str)) → ctx.incoming ≡ o → NamesTenant p ctx t
    go none e = cc (h, e)
    go (some get) e = (get, e, one_header-tenant p.tenant_id_header_name t _ (rw e at h))

module _ {M V T D : Type 0} (attrs : AttributeMap M V) (tagging : TagMap T)
    (metric_count : Metrics M D → ℕ) (p : TenantIdProcessor) (ctx : Context T)
    (metrics : Metrics M D) where
  -- When the request names exactly one tenant, ProcessMetrics returns no error, every attribute map of
  -- the batch, of a resource or of a data point, holds that tenant at the configured key, and one
  -- measurement is recorded: the count of the metrics, under the tenant's tag.
  pub process_metrics-stamps :
      (t : Str)
      → NamesTenant p ctx t
      → let o = process_metrics attrs tagging metric_count p ctx metrics in
        (o.error ≡ none)
        × All
            (λ m. attrs.get m p.tenant_id_attribute_key ≡ some (attrs.str_value t))
            (all_maps o.result)
        × (o.recorded
            ≡ record {
              measure = stat_metric_per_tenant;
              tags = tagging.insert ctx.tags tag_tenant_id t;
              amount = metric_count o.result;
            }
              ∷ [])
  unfolding process_metrics
  process_metrics-stamps t h =
      rw (header_of-NamesTenant p ctx t (metric_count metrics) h)
        (refl, rw (all_maps-add attrs _ t metrics) (All-stamped attrs _ t (all_maps metrics)), refl)

  -- At every other key, each attribute map of the batch shows after ProcessMetrics what it showed
  -- before, in the same order, whether the call fails or not.
  pub process_metrics-other_keys :
      (j : Str)
      → str_eq p.tenant_id_attribute_key j ≡ false
      → map
          (λ m. attrs.get m j)
          (all_maps (process_metrics attrs tagging metric_count p ctx metrics).result)
        ≡ map (λ m. attrs.get m j) (all_maps metrics)
  unfolding process_metrics
  process_metrics-other_keys j h =
      go (header_of p.tenant_id_header_name ctx.incoming (metric_count metrics)) refl
    where
      go :
          (r : Header)
          → header_of p.tenant_id_header_name ctx.incoming (metric_count metrics) ≡ r
          → map
              (λ m. attrs.get m j)
              (all_maps (process_metrics attrs tagging metric_count p ctx metrics).result)
            ≡ map (λ m. attrs.get m j) (all_maps metrics)
      go (refused x) e = rw e
      go (tenant t) e =
          rw (e, all_maps-add attrs _ t metrics)
            (other_keys-stamped attrs _ t j (all_maps metrics) h)

  -- ProcessMetrics returns no error exactly when the request names exactly one tenant.
  pub process_metrics-succeeds :
      ((process_metrics attrs tagging metric_count p ctx metrics).error ≡ none)
      ↔ ((t : Str) × NamesTenant p ctx t)
  unfolding process_metrics
  process_metrics-succeeds = (
    go (header_of p.tenant_id_header_name ctx.incoming (metric_count metrics)) refl,
    λ (t, h). rw (header_of-NamesTenant p ctx t (metric_count metrics) h),
  )
    where
      go :
          (r : Header)
          → header_of p.tenant_id_header_name ctx.incoming (metric_count metrics) ≡ r
          → (process_metrics attrs tagging metric_count p ctx metrics).error ≡ none
          → (t : Str) × NamesTenant p ctx t
      go (refused x) e h = cc (rw e at h)
      go (tenant t) e h = (t, header_of-tenant p ctx _ t e)

  -- When ProcessMetrics returns an error, the batch is returned as it came, and nothing is recorded
  -- or logged.
  pub process_metrics_refused :
      (x : Error)
      → (process_metrics attrs tagging metric_count p ctx metrics).error ≡ some x
      → let o = process_metrics attrs tagging metric_count p ctx metrics in
        (o.result ≡ metrics) × (o.recorded ≡ []) × (o.logged ≡ [])
  unfolding process_metrics
  process_metrics_refused x =
      go (header_of p.tenant_id_header_name ctx.incoming (metric_count metrics)) refl
    where
      go :
          (r : Header)
          → header_of p.tenant_id_header_name ctx.incoming (metric_count metrics) ≡ r
          → (process_metrics attrs tagging metric_count p ctx metrics).error ≡ some x
          → let o = process_metrics attrs tagging metric_count p ctx metrics in
            (o.result ≡ metrics) × (o.recorded ≡ []) × (o.logged ≡ [])
      go (refused y) e h = rw e (refl, refl, refl)
      go (tenant t) e h = cc (rw e at h)

module _ {M V T : Type 0} (attrs : AttributeMap M V) (tagging : TagMap T)
    (span_count : Traces M → ℕ) (p : TenantIdProcessor) (ctx : Context T) (traces : Traces M) where
  -- When the request names exactly one tenant, ProcessTraces returns no error, every resource of the
  -- batch holds that tenant at the configured key, at each other key j it shows what it showed
  -- before, and one measurement is recorded: the count of the spans, under the tenant's tag.
  pub process_traces-stamps :
      (t j : Str)
      → NamesTenant p ctx t
      → str_eq p.tenant_id_attribute_key j ≡ false
      → let o = process_traces attrs tagging span_count p ctx traces in
        (o.error ≡ none)
        × All
            (λ m. attrs.get m p.tenant_id_attribute_key ≡ some (attrs.str_value t))
            (resource_maps o.result)
        × (map (λ m. attrs.get m j) (resource_maps o.result)
            ≡ map (λ m. attrs.get m j) (resource_maps traces))
        × (o.recorded
            ≡ record {
              measure = stat_span_per_tenant;
              tags = tagging.insert ctx.tags tag_tenant_id t;
              amount = span_count o.result;
            }
              ∷ [])
  unfolding process_traces
  process_traces-stamps t j h k = rw (header_of-NamesTenant p ctx t (span_count traces) h) (
    refl,
    rw (resource_maps-add attrs _ t traces) (All-stamped attrs _ t (resource_maps traces)),
    rw (resource_maps-add attrs _ t traces)
        (other_keys-stamped attrs _ t j (resource_maps traces) k),
    refl,
  )

  -- ProcessTraces returns no error exactly when the request names exactly one tenant.
  pub process_traces-succeeds :
      ((process_traces attrs tagging span_count p ctx traces).error ≡ none)
      ↔ ((t : Str) × NamesTenant p ctx t)
  unfolding process_traces
  process_traces-succeeds = (
    go (header_of p.tenant_id_header_name ctx.incoming (span_count traces)) refl,
    λ (t, h). rw (header_of-NamesTenant p ctx t (span_count traces) h),
  )
    where
      go :
          (r : Header)
          → header_of p.tenant_id_header_name ctx.incoming (span_count traces) ≡ r
          → (process_traces attrs tagging span_count p ctx traces).error ≡ none
          → (t : Str) × NamesTenant p ctx t
      go (refused x) e h = cc (rw e at h)
      go (tenant t) e h = (t, header_of-tenant p ctx _ t e)
