-- ===== src/JaegerReceiver/Handlers/Ops.antt =====
-- The operation that each handler ends, and what it says of the call of the next consumer.
use hypertrace_collector.Prelude.{
  ◌≡◌, refl, ◌↔◌, ◌⊎◌, inl, inr, Option, none, some, [], ◌∷◌, Str, length, arith,
}
use hypertrace_collector.Prelude.All.{All-append}
use hypertrace_collector.Pdata.Traces.{Traces}
use hypertrace_collector.Pdata.Telemetry.{Context}
use hypertrace_collector.JaegerReceiver.Request.{
  Metadata, HttpError, Request, decode_thrift_http_body, status_accepted, status_bad_request,
  escape_string,
}
use hypertrace_collector.JaegerReceiver.Request.Decoded.{
  HoldsBatch, DecodedAs, decode_thrift_http_body-DecodedAs, IsPlain, escape_string-IsPlain,
}
use hypertrace_collector.JaegerReceiver.Handlers.Replies.{reply_iff}
use hypertrace_collector.JaegerReceiver.Handlers.{
  ObsReport, Batch, Op, thrift_format, as_op_error, consume_translated, consume_batch, reply,
  handle_decoded, handler_context, handle_thrift_http_batch, emit_batch, Handled,
}

as_op_error_iff :
    {E : Type 0} (text : E → Str) (o : Option E)
    → (as_op_error o ≡ none) ↔ ((reply text o).status ≡ status_accepted)
as_op_error_iff text none = (λ h. (reply_iff text none).1 refl, λ h. refl)
as_op_error_iff text (some e) = (λ h. cc, λ h. cc ((reply_iff text (some e)).0 h))

module _ {B E M T S : Type 0} (next : Context T → Traces M → Option E)
    (to_traces : Batch B S → E ⊎ Traces M) where
  -- What an operation tells of the call of the consumer, for a handler of the batches that `IsBatch`
  -- holds of: after a call with a batch's traces it has the batch's span count, and else count 0.
  abbrev pub Tells :
      (Batch B S → Type 0) → Context T → Op E → Option (Context T × Traces M) → Type 0
  Tells IsBatch ctx op none = op.num_spans ≡ 0
  Tells IsBatch ctx op (some (c, td)) =
      (batch : Batch B S) × IsBatch batch
      × (to_traces batch ≡ inr td)
      × (c ≡ ctx)
      × (op.num_spans ≡ length batch.spans)

  consume_translated-Tells :
      (IsBatch : Batch B S → Type 0) (ctx : Context T) (batch : Batch B S)
      → IsBatch batch
      → (x : E ⊎ Traces M) → to_traces batch ≡ x
      → let c = consume_translated next ctx (length batch.spans) x in
        Tells IsBatch ctx
          (record { format = thrift_format; num_spans = c.num_spans; error = as_op_error c.error })
          c.passed
  unfolding consume_translated
  consume_translated-Tells IsBatch ctx batch h (inl e) p = refl
  consume_translated-Tells IsBatch ctx batch h (inr td) p = (batch, h, p, refl, refl)

  consume_batch-Tells :
      (IsBatch : Batch B S → Type 0) (ctx : Context T) (batch : Batch B S)
      → IsBatch batch
      → let c = consume_batch next to_traces ctx (some batch) in
        Tells IsBatch ctx
          (record { format = thrift_format; num_spans = c.num_spans; error = as_op_error c.error })
          c.passed
  unfolding consume_batch
  consume_batch-Tells IsBatch ctx batch h =
      consume_translated-Tells IsBatch ctx batch h (to_traces batch) refl

  -- EmitBatch ends one operation, which has an error exactly when EmitBatch returns one; if the next
  -- consumer was called, it was called with the traces of the batch, and the operation has the batch's
  -- span count; otherwise it has count 0.
  pub emit_batch-Tells :
      (obs : ObsReport T) (ctx : Context T) (o : Option (Batch B S))
      → let posted = emit_batch next to_traces obs ctx o in
        (op : Op E) × (posted.ended ≡ op ∷ [])
        × (op.error ≡ as_op_error posted.error)
        × Tells (λ batch. o ≡ some batch) (obs.start_traces_op ctx) op posted.passed
  unfolding emit_batch consume_batch
  emit_batch-Tells obs ctx none = (_, refl, refl, refl)
  emit_batch-Tells obs ctx (some batch) = (_, refl, refl, consume_batch-Tells _ _ batch refl)

  module _ {D : Type 0} (obs : ObsReport T) (md : Metadata D) (text : E → Str)
      (deserialize : Str → E ⊎ Batch B S) (media_type : Str → E ⊎ Str) (r : Request E T) where
    abbrev pub EndsOne : Handled M T E → Type 0
    EndsOne o =
        (op : Op E) × (o.ended ≡ op ∷ [])
        × ((op.error ≡ none) ↔ (o.response.status ≡ status_accepted))
        × Tells (HoldsBatch deserialize media_type r) (handler_context md obs r) op o.passed

    handle_decoded-EndsOne :
        (x : HttpError ⊎ Batch B S)
        → DecodedAs deserialize media_type r x
        → EndsOne (handle_decoded next to_traces text (handler_context md obs r) x)
    unfolding handle_decoded
    handle_decoded-EndsOne (inl h) (inl low) =
        (_, refl, (λ e. cc, λ s. ground (arith, low, s)), refl)
    handle_decoded-EndsOne (inl h) (inr high) =
        (_, refl, (λ e. cc, λ s. ground (arith, high, s)), refl)
    handle_decoded-EndsOne (inr batch) holds =
        (_, refl, as_op_error_iff text _, consume_batch-Tells _ _ batch holds)

    -- The HTTP handler ends one operation, which has no error exactly when the answer is 202; the next
    -- consumer is called at most once, with the traces of the batch in the body, and then the operation
    -- has the batch's span count; if it is not called the operation has count 0.
    pub handle_thrift_http_batch-EndsOne :
        EndsOne (handle_thrift_http_batch next to_traces obs md text deserialize media_type r)
    unfolding handle_thrift_http_batch
    handle_thrift_http_batch-EndsOne =
        handle_decoded-EndsOne _ (decode_thrift_http_body-DecodedAs deserialize media_type r text)

    refused-IsPlain :
        (x : HttpError ⊎ Batch B S)
        → let o = handle_decoded next to_traces text (handler_context md obs r) x in
          o.response.status ≡ status_bad_request → IsPlain o.response.body × (o.passed ≡ none)
    unfolding handle_decoded consume_batch reply
    refused-IsPlain (inl h) s =
        (All-append _ (escape_string h.msg) _ (escape_string-IsPlain h.msg) (refl, tt), refl)
    refused-IsPlain (inr batch) s = absurd (replied _ s)
      where
        replied : (o : Option E) → (reply text o).status ≡ status_bad_request → ⊥
        replied none h = ground (arith, h)
        replied (some e) h = ground (arith, h)

    -- Where the HTTP handler answers 400, the next consumer was not called, and the body of the answer has
    -- no angle bracket and no quote in it, whatever the request holds.
    pub handle_thrift_http_batch-IsPlain :
        let o = handle_thrift_http_batch next to_traces obs md text deserialize media_type r in
        o.response.status ≡ status_bad_request → IsPlain o.response.body × (o.passed ≡ none)
    unfolding handle_thrift_http_batch
    handle_thrift_http_batch-IsPlain s =
        refused-IsPlain (decode_thrift_http_body text deserialize media_type r) s
