-- ===== src/Kafka/Span.antt =====
-- github.com/jaegertracing/jaeger/model: spans as the exporter reads and changes them, and the span
-- marshalers of exporter/kafkaexporter/jaeger_marshaler.go as an interface.
use hypertrace_collector.Prelude.{ℕ, ◌⊎◌, Bool, Option, List, Str, str}
use hypertrace_collector.Kafka.Message.{Bytes}

-- `other_type` is a number that the enumeration does not have.
pub data ValueType : Type 0 where
  string_type bool_type int64_type float64_type binary_type other_type : ValueType

-- The struct KeyValue has a field for each type of value. `D` is float64; an int64 is its 64-bit
-- pattern.
pub record KeyValue (D : Type 0) : Type 0 where
  pub key : Str
  pub v_type : ValueType
  pub v_str : Str
  pub v_bool : Bool
  pub v_int64 : ℕ
  pub v_float64 : D
  pub v_binary : Bytes

pub record Process (D : Type 0) : Type 0 where
  pub service_name : Str
  pub tags : List (KeyValue D)

-- `L` is the type of a span's log entry. The identifiers and times are as their String methods print
-- them.
pub record Span (D L : Type 0) : Type 0 where
  pub trace_id : Str
  pub span_id : Str
  pub operation_name : Str
  pub start_time : Str
  pub duration : Str
  pub process : Option (Process D)
  pub tags : List (KeyValue D)
  pub logs : List L

pub record Batch (D L : Type 0) : Type 0 where
  pub process : Option (Process D)
  pub spans : List (Span D L)

-- jaegerSpanMarshaler; `E` is the type of its errors.
pub record SpanMarshaler (D L E : Type 0) : Type 0 where
  pub marshal : Span D L → E ⊎ Bytes
  pub encoding : Str

-- jaegerProtoSpanMarshaler and jaegerJSONSpanMarshaler
abbrev pub jaeger_proto_span_marshaler :
    {D L E : Type 0} → (Span D L → E ⊎ Bytes) → SpanMarshaler D L E
jaeger_proto_span_marshaler marshal = record { marshal = marshal; encoding = str "jaeger_proto" }

abbrev pub jaeger_json_span_marshaler :
    {D L E : Type 0} → (Span D L → E ⊎ Bytes) → SpanMarshaler D L E
jaeger_json_span_marshaler marshal = record { marshal = marshal; encoding = str "jaeger_json" }
