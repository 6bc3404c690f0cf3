-- ===== src/Tests/Tables.antt =====
-- The marshalers of the Kafka exporter's factory at concrete inputs.
use hypertrace_collector.Prelude.{ℕ, ◌≡◌, refl, inr, List, [], ◌∷◌, Str, str, str_eq}
use hypertrace_collector.Prelude.GoMap.{GoMap, lookup, insert}
use hypertrace_collector.Kafka.Exporter.{Marshaler}
use hypertrace_collector.Kafka.Factory.{
  create_traces_exporter, with_topic, with_marshalers, curing_marshaler, curer, cures_spans,
  create_default_config,
}
use hypertrace_collector.Kafka.Tables.{TracesLibraries, traces_marshalers, with_traces, new_factory}
use hypertrace_collector.Kafka.Tables.Encodings.{create_traces_exporter-encoding}
use hypertrace_collector.Tests.Exporter.{jaeger, config, exporter, marshaler}

abbrev lib : TracesLibraries (List (GoMap Str)) ℕ ℕ Str
lib = record {
  split = λ td. td ∷ [];
  trace_key = λ td. [];
  proto = λ td. inr [];
  json = λ td. inr [];
  zipkin_proto = λ td. inr [];
  zipkin_json = λ td. inr [];
  proto_from_traces = λ td. inr [];
  span_proto = λ s. inr [];
  span_json = λ s. inr [];
}

abbrev tables : GoMap (Marshaler ℕ Str)
tables = []

-- The settings ask for the curing of spans, and an option has replaced the marshaler.
create_traces_exporter-encoding_example : exporter.marshaler.encoding ≡ config.encoding
create_traces_exporter-encoding_example =
    create_traces_exporter-encoding jaeger lib tables tables (with_traces (marshaler ∷ []) ∷ [])
      config exporter
      (unfold create_traces_exporter with_topic curing_marshaler curer create_default_config lookup
          insert str str_eq with_marshalers traces_marshalers cures_spans new_factory in
        refl)
