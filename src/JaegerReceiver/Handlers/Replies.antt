-- ===== src/JaegerReceiver/Handlers/Replies.antt =====
-- Which batches the handlers accept, what they answer, and the operation that each of them ends.
use hypertrace_collector.Prelude.{
  ℕ, ◌≡◌, refl, ◌↔◌, ◌⊎◌, inl, inr, Option, none, some, Str, length, arith,
}
use hypertrace_collector.Pdata.Traces.{Traces}
use hypertrace_collector.Pdata.Telemetry.{Context}
use hypertrace_collector.JaegerReceiver.Request.{Metadata, HttpError, Request, status_accepted}
use hypertrace_collector.JaegerReceiver.Request.Decoded.{
  HoldsBatch, DecodedAs, decode_thrift_http_body-DecodedAs, decode_thrift_http_body-HoldsBatch,
}
use hypertrace_collector.JaegerReceiver.Handlers.{
  ObsReport, Batch, consume_translated, consume_batch, reply, handle_decoded, handler_context,
  handle_thrift_http_batch,
}

module _ {E M T : Type 0} (next : Context T → Traces M → Option E) where
  consume_translated_iff :
      (ctx : Context T) (n : ℕ) (o : E ⊎ Traces M)
      → ((consume_translated next ctx n o).error ≡ none)
        ↔ ((td : Traces M) × (o ≡ inr td) × (next ctx td ≡ none))
  unfolding consume_translated
  consume_translated_iff ctx n (inl e) = (λ h. cc, λ (td, p, q). cc)
  consume_translated_iff ctx n (inr td) = (λ h. (td, refl, h), λ (u, p, q). cc)

  module _ {B S : Type 0} (to_traces : Batch B S → E ⊎ Traces M) where
    -- The batch can be translated, and the next consumer takes its traces.
    abbrev pub TakesBatch : Context T → Batch B S → Type 0
    TakesBatch ctx batch = (td : Traces M) × (to_traces batch ≡ inr td) × (next ctx td ≡ none)

    pub consume_batch_iff :
        (ctx : Context T) (batch : Batch B S)
        → ((consume_batch next to_traces ctx (some batch)).error ≡ none) ↔ TakesBatch ctx batch
    unfolding consume_batch
    consume_batch_iff ctx batch = consume_translated_iff ctx (length batch.spans) (to_traces batch)

pub reply_iff :
    {E : Type 0} (text : E → Str) (o : Option E)
    → ((reply text o).status ≡ status_accepted) ↔ (o ≡ none)
unfolding reply
reply_iff text none = (λ h. refl, λ h. refl)
reply_iff text (some e) = (λ h. ground arith, λ h. cc)

module _ {B D E M T S : Type 0} (next : Context T → Traces M → Option E)
    (to_traces : Batch B S → E ⊎ Traces M) (obs : ObsReport T) (md : Metadata D) (text : E → Str)
    (deserialize : Str → E ⊎ Batch B S) (media_type : Str → E ⊎ Str) (r : Request E T) where
  accepted_of :
      (x : HttpError ⊎ Batch B S)
      → DecodedAs deserialize media_type r x
      → (handle_decoded next to_traces text (handler_context md obs r) x).response.status
        ≡ status_accepted
      → (batch : Batch B S) × HoldsBatch deserialize media_type r batch
        × TakesBatch next to_traces (handler_context md obs r) batch
  unfolding handle_decoded
  accepted_of (inl h) (inl low) s = ground (arith, low, s)
  accepted_of (inl h) (inr high) s = ground (arith, high, s)
  accepted_of (inr batch) holds s =
      (batch, holds, (consume_batch_iff next to_traces _ batch).0 ((reply_iff text _).0 s))

  -- The HTTP handler answers 202 exactly when the body can be read, its content type is one of the two
  -- Thrift types, it is deserialized to a batch, the batch can be translated, and the next consumer
  -- takes the traces, in the context whose metadata are the headers of the request.
  pub handle_thrift_http_batch_iff :
      ((handle_thrift_http_batch next to_traces obs md text deserialize media_type
          r).response.status
        ≡ status_accepted)
      ↔ ((batch : Batch B S) × HoldsBatch deserialize media_type r batch
          × TakesBatch next to_traces (handler_context md obs r) batch)
  unfolding handle_thrift_http_batch
  handle_thrift_http_batch_iff = (
    accepted_of _ (decode_thrift_http_body-DecodedAs deserialize media_type r text),
    λ (batch, holds, takes).
        rw (decode_thrift_http_body-HoldsBatch deserialize media_type r text batch holds) (
          unfold handle_decoded in
          (reply_iff text _).1 ((consume_batch_iff next to_traces _ batch).1 takes)),
  )
