-- ===== src/Pipeline/Intake.antt =====
-- The HTTP handler of the Jaeger receiver (receiver/jaegerreceiver) in front of the tenant id processor
-- (processors/tenantidprocessor): processorhelper hands the context and the processor's result on to
-- the consumer after it, or returns the processor's error.
use hypertrace_collector.Prelude.{
  ℕ, ◌≡◌, refl, sym, ◌∙◌, ap, ◌⊎◌, inr, Option, none, some, List, [], ◌∷◌, ◌++◌, Str,
}
use hypertrace_collector.Prelude.All.{All}
use hypertrace_collector.Pdata.Attributes.{AttributeMap}
use hypertrace_collector.Pdata.Traces.{Traces, resource_maps}
use hypertrace_collector.Pdata.Telemetry.{TagMap, Context}
use hypertrace_collector.TenantId.Config.{TenantIdProcessor}
use hypertrace_collector.TenantId.Process.{Error, process_traces}
use hypertrace_collector.TenantId.Process.Outcomes.{
  NamesTenant, process_traces-stamps, process_traces-succeeds,
}
use hypertrace_collector.JaegerReceiver.Request.{Metadata, Request, to_metadata, status_accepted}
use hypertrace_collector.JaegerReceiver.Request.Keys.{header_values, get-to_metadata}
use hypertrace_collector.JaegerReceiver.Request.Decoded.{HoldsBatch}
use hypertrace_collector.JaegerReceiver.Handlers.{
  ObsReport, Batch, handler_context, handle_thrift_http_batch,
}
use hypertrace_collector.JaegerReceiver.Handlers.Replies.{handle_thrift_http_batch_iff}
use hypertrace_collector.Pipeline.{longer_differs}

module _ {M V T E : Type 0} (attrs : AttributeMap M V) (tagging : TagMap T)
    (span_count : Traces M → ℕ) (p : TenantIdProcessor) where
  abbrev next_or_error : (Traces M → Option E) → (Error → E) → Traces M → Option Error → Option E
  next_or_error forward wrap td none = forward td
  next_or_error forward wrap td (some e) = some (wrap e)

  -- The tenant id processor as the consumer that a receiver calls.
  unfoldable pub stamp_then :
      (Context T → Traces M → Option E) → (Error → E) → Context T → Traces M → Option E
  stamp_then forward wrap ctx td =
      let o = process_traces attrs tagging span_count p ctx td in
      next_or_error (forward ctx) wrap o.result o.error

  stamp_then-none :
      (forward : Context T → Traces M → Option E) (wrap : Error → E) (ctx : Context T)
      (td : Traces M)
      → stamp_then forward wrap ctx td ≡ none
      → let o = process_traces attrs tagging span_count p ctx td in
        (o.error ≡ none) × (forward ctx o.result ≡ none)
  unfolding stamp_then
  stamp_then-none forward wrap ctx td h =
      let o = process_traces attrs tagging span_count p ctx td in go o.result o.error h
    where
      go :
          (u : Traces M) (e : Option Error)
          → next_or_error (forward ctx) wrap u e ≡ none
          → (e ≡ none) × (forward ctx u ≡ none)
      go u none h = (refl, h)
      go u (some e) h = cc

module _ {D T E : Type 0} (md : Metadata D) (obs : ObsReport T) (p : TenantIdProcessor)
    (r : Request E T) where
  tenant_header :
      (t : Str)
      → NamesTenant p (handler_context md obs r) t
      → header_values md.lower p.tenant_id_header_name r.header ≡ t ∷ []
  unfolding handler_context
  tenant_header t (get, e, h) =
      let ctx : Context T = record r.context {
        incoming = some (md.get (to_metadata md r.header));
      } in
      let same : some (md.get (to_metadata md r.header)) ≡ some get =
        sym (obs.same_metadata ctx) ∙ e in
      let found : md.get (to_metadata md r.header) ≡ get = cc in
      sym (get-to_metadata md r.header p.tenant_id_header_name)
      ∙ (ap (λ (g : Str → List Str). g p.tenant_id_header_name) found ∙ h)

module _ {B D M V T E S : Type 0} (attrs : AttributeMap M V) (tagging : TagMap T)
    (span_count : Traces M → ℕ) (p : TenantIdProcessor) (forward : Context T → Traces M → Option E)
    (wrap : Error → E) (to_traces : Batch B S → E ⊎ Traces M) (obs : ObsReport T) (md : Metadata D)
    (text : E → Str) (deserialize : Str → E ⊎ Batch B S) (media_type : Str → E ⊎ Str)
    (r : Request E T) where
  -- Where the receiver in front of the tenant id processor answers 202, the request's headers that are the
  -- processor's header name but for their case hold one value in all, and the next component has taken
  -- the batch of the body with every resource stamped with that value.
  pub handle_thrift_http_batch-one_tenant :
      (handle_thrift_http_batch
          (stamp_then attrs tagging span_count p forward wrap)
          to_traces
          obs
          md
          text
          deserialize
          media_type
          r).response.status
        ≡ status_accepted
      → (t : Str) × (header_values md.lower p.tenant_id_header_name r.header ≡ t ∷ [])
        × (batch : Batch B S) × (td : Traces M) × HoldsBatch deserialize media_type r batch
        × (to_traces batch ≡ inr td)
        × let ctx = handler_context md obs r in
          let stamped = (process_traces attrs tagging span_count p ctx td).result in
          (forward ctx stamped ≡ none)
          × All
              (λ m. attrs.get m p.tenant_id_attribute_key ≡ some (attrs.str_value t))
              (resource_maps stamped)
  handle_thrift_http_batch-one_tenant accepted =
      let (batch, holds, (td, translated, taken)) =
        (handle_thrift_http_batch_iff (stamp_then attrs tagging span_count p forward wrap) to_traces
            obs md text deserialize media_type r).0
          accepted in
      let ctx = handler_context md obs r in
      let (fine, forwarded) =
        stamp_then-none attrs tagging span_count p forward wrap ctx td taken in
      let (t, named) = (process_traces-succeeds attrs tagging span_count p ctx td).0 fine in
      let key = p.tenant_id_attribute_key in
      let stamps =
        process_traces-stamps attrs tagging span_count p ctx td t (key ++ 0 ∷ []) named
          (longer_differs key) in
      (t, tenant_header md obs p r t named, batch, td, holds, translated, (forwarded, stamps.1))
