-- ===== src/JaegerReceiver/Handlers.antt =====
-- receiver/jaegerreceiver/trace_receiver.modified.go: the handlers of the Thrift batches that arrive by
-- HTTP or at the agent, and of PostSpans by gRPC. The translator, the observability report and the
-- next consumer are parameters.
pub mod Replies
pub mod Ops
use hypertrace_collector.Prelude.{
  ℕ, ◌≡◌, Bool, true, false, ◌||◌, ◌⊎◌, inl, inr, Option, none, some, List, [], ◌∷◌, ◌++◌, Str, str,
  str_eq, length, if◌then◌else◌,
}
use hypertrace_collector.Prelude.GoMap.{GoMap, lookup}
use hypertrace_collector.Pdata.Traces.{Traces}
use hypertrace_collector.JaegerReceiver.Request.{
  Metadata, HttpError, Request, Response, http_response, escape_string, decode_thrift_http_body,
  to_metadata, status_accepted, status_internal_server_error,
}
use hypertrace_collector.Pdata.Telemetry.{Context}

-- receiverhelper.ObsReport: StartTracesOp returns a context that is derived from its argument, so it
-- carries the same incoming metadata.
pub record ObsReport (T : Type 0) : Type 0 where
  pub start_traces_op : Context T → Context T
  pub same_metadata : (c : Context T) → (start_traces_op c).incoming ≡ c.incoming

-- jaeger.Batch and model.Batch: the spans, and what the translator needs besides them.
pub record Batch (P S : Type 0) : Type 0 where
  pub process : P
  pub spans : List S

-- The error that EndTracesOp gets.
pub data OpError (E : Type 0) : Type 0 where
  http_error : HttpError → OpError E
  other_error : E → OpError E

-- A call of EndTracesOp.
pub record Op (E : Type 0) : Type 0 where
  pub format : Str
  pub num_spans : ℕ
  pub error : Option (OpError E)

abbrev pub thrift_format : Str
unfolding str
thrift_format = str "thrift"

abbrev pub protobuf_format : Str
unfolding str
protobuf_format = str "protobuf"

-- What consumeTraces returns, and the call of the next consumer that it makes.
pub record Consumed (M T E : Type 0) : Type 0 where
  pub num_spans : ℕ
  pub error : Option E
  pub passed : Option (Context T × Traces M)

-- What HandleThriftHTTPBatch does: its response, the calls of EndTracesOp, and its call of the next
-- consumer.
pub record Handled (M T E : Type 0) : Type 0 where
  pub response : Response
  pub ended : List (Op E)
  pub passed : Option (Context T × Traces M)

-- What EmitBatch and PostSpans do; the response of PostSpans is empty.
pub record Posted (M T E : Type 0) : Type 0 where
  pub error : Option E
  pub ended : List (Op E)
  pub passed : Option (Context T × Traces M)

abbrev pub as_op_error : {E : Type 0} → Option E → Option (OpError E)
as_op_error none = none
as_op_error (some e) = some (other_error e)

-- The end of a call of an operation.
abbrev end_traces_op : {E : Type 0} → Str → ℕ → Option E → List (Op E)
end_traces_op format n e = record { format = format; num_spans = n; error = as_op_error e } ∷ []

-- The response to a batch that was decoded.
pub reply : {E : Type 0} → (E → Str) → Option E → Response
reply text none = record { status = status_accepted; body = [] }
reply text (some e) =
    http_response (str "Cannot submit Jaeger batch: " ++ text e) status_internal_server_error

-- The context that HandleThriftHTTPBatch hands on.
unfoldable pub handler_context :
    {D E T : Type 0} → Metadata D → ObsReport T → Request E T → Context T
handler_context md obs r =
    obs.start_traces_op (record r.context { incoming = some (md.get (to_metadata md r.header)) })

module _ {E M T : Type 0} (next : Context T → Traces M → Option E) where
  -- consumeTraces, after the translation.
  pub consume_translated : Context T → ℕ → E ⊎ Traces M → Consumed M T E
  consume_translated ctx n (inl e) = record { num_spans = 0; error = some e; passed = none }
  consume_translated ctx n (inr td) = record {
    num_spans = n;
    error = next ctx td;
    passed = some (ctx, td);
  }

  -- PostSpans, after the translation of the batch.
  pub post_translated : Context T → ℕ → E ⊎ Traces M → Posted M T E
  post_translated ctx n (inl e) = record {
    error = some e;
    ended = end_traces_op protobuf_format n (some e);
    passed = none;
  }
  post_translated ctx n (inr td) = record {
    error = next ctx td;
    ended = end_traces_op protobuf_format n (next ctx td);
    passed = some (ctx, td);
  }

  module _ {B S : Type 0} (to_traces : Batch B S → E ⊎ Traces M) where
    -- consumeTraces; a nil batch is none.
    unfoldable pub consume_batch : Context T → Option (Batch B S) → Consumed M T E
    unfolding consume_translated
    consume_batch ctx none = record { num_spans = 0; error = none; passed = none }
    consume_batch ctx (some batch) = consume_translated ctx (length batch.spans) (to_traces batch)

    -- HandleThriftHTTPBatch, after decodeThriftHTTPBody.
    pub handle_decoded : (E → Str) → Context T → HttpError ⊎ Batch B S → Handled M T E
    unfolding reply consume_batch
    handle_decoded text ctx (inl h) = record {
      response = http_response (escape_string h.msg) h.status_code;
      ended = record { format = thrift_format; num_spans = 0; error = some (http_error h) } ∷ [];
      passed = none;
    }
    handle_decoded text ctx (inr batch) =
        let c = consume_batch ctx (some batch) in
        record {
          response = reply text c.error;
          ended = end_traces_op thrift_format c.num_spans c.error;
          passed = c.passed;
        }

    module _ (obs : ObsReport T) where
      -- EmitBatch
      unfoldable pub emit_batch : Context T → Option (Batch B S) → Posted M T E
      unfolding consume_batch
      emit_batch ctx batch =
          let c = consume_batch (obs.start_traces_op ctx) batch in
          record {
            error = c.error;
            ended = end_traces_op thrift_format c.num_spans c.error;
            passed = c.passed;
          }

      -- PostSpans; the batch is `r.GetBatch()`, and `to_traces` is ProtoToTraces of that one batch.
      unfoldable pub post_spans : Context T → Batch B S → Posted M T E
      unfolding post_translated
      post_spans ctx batch =
          post_translated (obs.start_traces_op ctx) (length batch.spans) (to_traces batch)

      -- HandleThriftHTTPBatch
      unfoldable pub handle_thrift_http_batch :
          {D : Type 0}
          → Metadata D
          → (E → Str)
          → (Str → E ⊎ Batch B S)
          → (Str → E ⊎ Str)
          → Request E T
          → Handled M T E
      unfolding handle_decoded handler_context
      handle_thrift_http_batch md text deserialize media_type r =
          handle_decoded text (handler_context md obs r)
            (decode_thrift_http_body text deserialize media_type r)

-- EmitZipkinBatch panics, with this text.
abbrev pub emit_zipkin_batch : {Z E : Type 0} → List Z → Str ⊎ Option E
emit_zipkin_batch spans = inl (str "unsupported receiver")

-- notImplementedConfigManager: both methods fail.
abbrev pub get_sampling_strategy : {R : Type 0} → Str → Str ⊎ R
get_sampling_strategy service = inl (str "not implemented")

abbrev pub get_baggage_restrictions : {R : Type 0} → Str → Str ⊎ R
get_baggage_restrictions service = inl (str "not implemented")
