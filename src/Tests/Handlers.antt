-- ===== src/Tests/Handlers.antt =====
-- The handlers of the Jaeger receiver, and the tenant id processor after them, at concrete inputs.
use hypertrace_collector.Prelude.{
  ℕ, ◌+◌, ◌≡◌, refl, ◌↔◌, ◌⊎◌, inl, inr, Option, none, some, List, [], ◌∷◌, ◌++◌, map, Str, str,
  str_eq, str_eq_iff, ltb, length, if◌then◌else◌, arith,
}
use hypertrace_collector.Prelude.All.{All}
use hypertrace_collector.Prelude.GoMap.{GoMap, lookup, insert, lookup-insert}
use hypertrace_collector.Pdata.Traces.{Traces, resource_maps}
use hypertrace_collector.Pdata.Telemetry.{Context}
use hypertrace_collector.TenantId.Process.{Error, process_traces}
use hypertrace_collector.JaegerReceiver.Request.{
  Metadata, Request, decode_thrift_http_body, content_type, to_metadata, status_accepted,
}
use hypertrace_collector.JaegerReceiver.Request.Decoded.{HoldsBatch}
use hypertrace_collector.JaegerReceiver.Request.Keys.{header_values}
use hypertrace_collector.JaegerReceiver.Handlers.{
  ObsReport, Batch, handler_context, handle_thrift_http_batch,
}
use hypertrace_collector.JaegerReceiver.Handlers.Replies.{TakesBatch, handle_thrift_http_batch_iff}
use hypertrace_collector.JaegerReceiver.Handlers.Ops.{EndsOne, handle_thrift_http_batch-EndsOne}
use hypertrace_collector.Pipeline.Intake.{stamp_then, handle_thrift_http_batch-one_tenant}
use hypertrace_collector.Tests.Sample.{attrs, tags, span_count}
use hypertrace_collector.Tests.TenantId.{acme, processor}

-- `strings.ToLower` of ASCII letters
abbrev lower_byte : ℕ → ℕ
lower_byte c = if ltb 64 c then (if ltb c 91 then c + 32 else c) else c

unfoldable lower : Str → Str
lower s = map lower_byte s

abbrev values_or_none : Option (List Str) → List Str
values_or_none none = []
values_or_none (some vs) = vs

unfoldable append_values : GoMap (List Str) → Str → List Str → GoMap (List Str)
append_values d k vs = insert (lower k) (values_or_none (lookup (lower k) d) ++ vs) d

get-append_values :
    (d : GoMap (List Str)) (k j : Str) (vs : List Str)
    → values_or_none (lookup (lower j) (append_values d k vs)) ≡ (
        if str_eq (lower k) (lower j)
        then values_or_none (lookup (lower j) d) ++ vs
        else values_or_none (lookup (lower j) d))
unfolding append_values
get-append_values d k j vs = ground (
  arith,
  lookup-insert (lower k) (lower j) (values_or_none (lookup (lower k) d) ++ vs) d,
  str_eq_iff (lower k) (lower j),
)

abbrev md : Metadata (GoMap (List Str))
unfolding lookup
md = record {
  empty = [];
  append = append_values;
  get = λ d k. values_or_none (lookup (lower k) d);
  lower = lower;
  get-empty = λ j. refl;
  get-append = get-append_values;
}

abbrev obs : ObsReport (GoMap Str)
obs = record { start_traces_op = λ c. c; same_metadata = λ c. refl }

-- The translator takes batches of one span at least, and a body is the name of its one span.
abbrev to_traces : Batch Str Str → Str ⊎ Traces (GoMap Str)
to_traces batch =
    if ltb 0 (length batch.spans)
    then inr (
        record {
          resource = (str "service.name", batch.process) ∷ [];
          scopes =
              record { spans = map (λ n. record { name = n; attributes = [] }) batch.spans } ∷ [];
        }
        ∷ [])
    else inl (str "no spans")

abbrev deserialize : Str → Str ⊎ Batch Str Str
deserialize bytes = inr (record { process = str "shop"; spans = bytes ∷ [] })

abbrev media_type : Str → Str ⊎ Str
media_type s = inr s

abbrev text : Str → Str
text e = e

abbrev next : Context (GoMap Str) → Traces (GoMap Str) → Option Str
next ctx td = none

abbrev request : Str → Request Str (GoMap Str)
request content_type = record {
  body = inr (str "checkout");
  header = (str "Content-Type", content_type ∷ []) ∷ (str "X-Tenant-Id", acme ∷ []) ∷ [];
  context = record { incoming = none; tags = [] };
}

abbrev thrift : Request Str (GoMap Str)
thrift = request (str "application/x-thrift")

abbrev json : Request Str (GoMap Str)
json = request (str "<json>")

handle_thrift_http_batch_iff_example :
    ((handle_thrift_http_batch next to_traces obs md text deserialize media_type
        thrift).response.status
      ≡ status_accepted)
    ↔ ((batch : Batch Str Str) × HoldsBatch deserialize media_type thrift batch
        × TakesBatch next to_traces (handler_context md obs thrift) batch)
handle_thrift_http_batch_iff_example =
    handle_thrift_http_batch_iff next to_traces obs md text deserialize media_type thrift

handle_thrift_http_batch-EndsOne_example :
    EndsOne next to_traces obs md text deserialize media_type thrift
      (handle_thrift_http_batch next to_traces obs md text deserialize media_type thrift)
handle_thrift_http_batch-EndsOne_example =
    handle_thrift_http_batch-EndsOne next to_traces obs md text deserialize media_type thrift

abbrev wrap : Error → Str
wrap e = str "refused"

handle_thrift_http_batch-one_tenant_example :
    (t : Str) × (header_values lower processor.tenant_id_header_name thrift.header ≡ t ∷ [])
    × (batch : Batch Str Str) × (td : Traces (GoMap Str)) × HoldsBatch deserialize media_type thrift
        batch
    × (to_traces batch ≡ inr td)
    × let ctx = handler_context md obs thrift in
      let stamped = (process_traces attrs tags span_count processor ctx td).result in
      (next ctx stamped ≡ none)
      × All (λ m. lookup processor.tenant_id_attribute_key m ≡ some t) (resource_maps stamped)
unfolding decode_thrift_http_body str_eq str content_type lookup stamp_then process_traces
    to_metadata append_values insert lower
handle_thrift_http_batch-one_tenant_example =
    handle_thrift_http_batch-one_tenant attrs tags span_count processor next wrap to_traces obs md
      text deserialize media_type thrift (unfold handle_thrift_http_batch in refl)
