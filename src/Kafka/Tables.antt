-- ===== src/Kafka/Tables.antt =====
-- exporter/kafkaexporter/marshaler.go, with the constructors of the marshalers that it calls, and
-- NewFactory of factory.go: the maps from encodings to marshalers. The encoders of pdata, of zipkin and
-- of a Jaeger span are parameters.
pub mod Encodings
use hypertrace_collector.Prelude.{Bool, true, false, ◌⊎◌, inl, inr, List, [], ◌∷◌, Str, str}
use hypertrace_collector.Prelude.GoMap.{GoMap, insert}
use hypertrace_collector.Pdata.Metrics.{Metrics}
use hypertrace_collector.Kafka.Message.{ProducerMessage, Bytes}
use hypertrace_collector.Kafka.Span.{
  Span, Batch, SpanMarshaler, jaeger_proto_span_marshaler, jaeger_json_span_marshaler,
}
use hypertrace_collector.Kafka.Curer.{marshal_plain}
use hypertrace_collector.Kafka.Marshalers.{
  ResourceLogs, Any, RawError, raw_marshal, marshal_whole, marshal_traces, marshal_metrics,
}
use hypertrace_collector.Kafka.Exporter.{Marshaler}
use hypertrace_collector.Kafka.Factory.{default_encoding, with_marshalers}

-- The messages and the error that Marshal returns.
abbrev returned : {E : Type 0} → E ⊎ List ProducerMessage → List ProducerMessage × List E
returned (inl e) = ([], e ∷ [])
returned (inr ms) = (ms, [])

abbrev wrapped : {E F : Type 0} → (E → F) → E ⊎ List ProducerMessage → List ProducerMessage × List F
wrapped wrap (inl e) = ([], wrap e ∷ [])
wrapped wrap (inr ms) = (ms, [])

module _ {T E : Type 0} where
  -- newPdataTracesMarshaler
  abbrev pub pdata_traces_marshaler :
      (T → List T) → (T → Bytes) → (T → E ⊎ Bytes) → Str → Marshaler T E
  pdata_traces_marshaler split trace_key marshal encoding = record {
    encoding = encoding;
    keyable = true;
    keyed = false;
    encode = λ keyed td topic. returned (marshal_traces marshal split trace_key keyed topic td);
  }

  -- newPdataLogsMarshaler: it has no method Key.
  abbrev pub pdata_logs_marshaler : (T → E ⊎ Bytes) → Str → Marshaler T E
  pdata_logs_marshaler marshal encoding = record {
    encoding = encoding;
    keyable = false;
    keyed = false;
    encode = λ keyed ld topic. returned (marshal_whole marshal topic ld);
  }

  -- jaegerMarshaler: it has no method Key.
  abbrev pub jaeger_marshaler :
      {D L : Type 0} → (T → E ⊎ List (Batch D L)) → SpanMarshaler D L E → Marshaler T E
  jaeger_marshaler proto_from_traces m = record {
    encoding = m.encoding;
    keyable = false;
    keyed = false;
    encode = λ keyed td topic.
        let out = marshal_plain m topic (proto_from_traces td) in (out.messages, out.errors);
  }

-- newPdataMetricsMarshaler
abbrev pub pdata_metrics_marshaler :
    {M D E : Type 0} → (M → Bytes) → (Metrics M D → E ⊎ Bytes) → Str → Marshaler (Metrics M D) E
pdata_metrics_marshaler map_hash marshal encoding = record {
  encoding = encoding;
  keyable = true;
  keyed = false;
  encode = λ keyed md topic. returned (marshal_metrics marshal map_hash keyed topic md);
}

-- newRawMarshaler, whose errors are among those of the map's marshalers.
abbrev pub raw_marshaler :
    {D S M E F : Type 0}
    → (RawError E → F)
    → (Any D S M → E ⊎ Bytes)
    → Marshaler (List (ResourceLogs D S M)) F
raw_marshaler wrap json = record {
  encoding = str "raw";
  keyable = false;
  keyed = false;
  encode = λ keyed ld topic. wrapped wrap (raw_marshal json topic ld);
}

-- `m[k] = v` for each entry of a map literal, under `Encoding()`.
abbrev pub table : {T E : Type 0} → List (Marshaler T E) → GoMap (Marshaler T E)
table ms = with_marshalers ms []

-- The encoders of the libraries, and what keys the parts of a batch of traces.
pub record TracesLibraries (T D L E : Type 0) : Type 0 where
  pub split : T → List T
  pub trace_key : T → Bytes
  pub proto : T → E ⊎ Bytes
  pub json : T → E ⊎ Bytes
  pub zipkin_proto : T → E ⊎ Bytes
  pub zipkin_json : T → E ⊎ Bytes
  pub proto_from_traces : T → E ⊎ List (Batch D L)
  pub span_proto : Span D L → E ⊎ Bytes
  pub span_json : Span D L → E ⊎ Bytes

-- tracesMarshalers
unfoldable pub traces_marshalers :
    {T D L E : Type 0} → TracesLibraries T D L E → GoMap (Marshaler T E)
traces_marshalers lib =
    let pdata = pdata_traces_marshaler lib.split lib.trace_key in
    table (
      pdata lib.proto default_encoding
      ∷ pdata lib.json (str "otlp_json")
      ∷ pdata lib.zipkin_proto (str "zipkin_proto")
      ∷ pdata lib.zipkin_json (str "zipkin_json")
      ∷ jaeger_marshaler lib.proto_from_traces (jaeger_proto_span_marshaler lib.span_proto)
      ∷ jaeger_marshaler lib.proto_from_traces (jaeger_json_span_marshaler lib.span_json)
      ∷ [])

-- metricsMarshalers
unfoldable pub metrics_marshalers :
    {M D E : Type 0}
    → (M → Bytes)
    → (Metrics M D → E ⊎ Bytes)
    → (Metrics M D → E ⊎ Bytes)
    → GoMap (Marshaler (Metrics M D) E)
metrics_marshalers map_hash proto json = table (
    pdata_metrics_marshaler map_hash proto default_encoding
    ∷ pdata_metrics_marshaler map_hash json (str "otlp_json")
    ∷ [])

-- logsMarshalers
unfoldable pub logs_marshalers :
    {D S M E F : Type 0}
    → (RawError E → F)
    → (Any D S M → E ⊎ Bytes)
    → (List (ResourceLogs D S M) → F ⊎ Bytes)
    → (List (ResourceLogs D S M) → F ⊎ Bytes)
    → GoMap (Marshaler (List (ResourceLogs D S M)) F)
logs_marshalers wrap any_json proto json = table (
    pdata_logs_marshaler proto default_encoding
    ∷ pdata_logs_marshaler json (str "otlp_json")
    ∷ raw_marshaler wrap any_json
    ∷ [])

-- The maps of kafkaExporterFactory, for traces, metrics and logs.
pub record ExporterFactory (T MT LT E : Type 0) : Type 0 where
  pub traces_marshalers : GoMap (Marshaler T E)
  pub metrics_marshalers : GoMap (Marshaler MT E)
  pub logs_marshalers : GoMap (Marshaler LT E)

-- FactoryOption: withTracesMarshalers, withMetricsMarshalers and withLogsMarshalers.
pub data FactoryOption (T MT LT E : Type 0) : Type 0 where
  with_traces : List (Marshaler T E) → FactoryOption T MT LT E
  with_metrics : List (Marshaler MT E) → FactoryOption T MT LT E
  with_logs : List (Marshaler LT E) → FactoryOption T MT LT E

module _ {T MT LT E : Type 0} where
  pub apply_option : FactoryOption T MT LT E → ExporterFactory T MT LT E → ExporterFactory T MT LT E
  apply_option (with_traces ms) f = record f {
    traces_marshalers = with_marshalers ms f.traces_marshalers;
  }
  apply_option (with_metrics ms) f = record f {
    metrics_marshalers = with_marshalers ms f.metrics_marshalers;
  }
  apply_option (with_logs ms) f = record f {
    logs_marshalers = with_marshalers ms f.logs_marshalers;
  }

  -- NewFactory, from the factory with the three tables on.
  unfoldable pub new_factory :
      List (FactoryOption T MT LT E) → ExporterFactory T MT LT E → ExporterFactory T MT LT E
  unfolding apply_option
  new_factory [] f = f
  new_factory (o ∷ os) f = new_factory os (apply_option o f)
