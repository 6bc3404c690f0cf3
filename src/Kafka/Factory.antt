-- ===== src/Kafka/Factory.antt =====
-- exporter/kafkaexporter/factory.go, and the constructors of kafka_exporter.modified.go. The map of
-- marshalers belongs to the factory, and a call of Key changes a marshaler that the map holds, so the
-- constructors return the map. The exporterhelper functions that wrap the exporters, and what of the
-- settings belongs to them, are not modelled.
pub mod Creation
pub mod Curing
use hypertrace_collector.Prelude.{
  ℕ, Bool, true, false, ◌&&◌, ◌⊎◌, inl, inr, Option, none, some, List, [], ◌∷◌, Str, str, str_eq,
  is_empty, ◌==◌, if◌then◌else◌,
}
use hypertrace_collector.Prelude.GoMap.{GoMap, lookup, insert}
use hypertrace_collector.Kafka.Message.{Bytes}
use hypertrace_collector.Kafka.Span.{Span, Batch, jaeger_proto_span_marshaler}
use hypertrace_collector.Kafka.Cure.{CurerConfig}
use hypertrace_collector.Kafka.Curer.{marshal}
use hypertrace_collector.Kafka.Config.{Config, pos}
use hypertrace_collector.Kafka.Exporter.{Marshaler, KafkaProducer}

abbrev pub default_traces_topic : Str
unfolding str
default_traces_topic = str "otlp_spans"

abbrev pub default_metrics_topic : Str
unfolding str
default_metrics_topic = str "otlp_metrics"

abbrev pub default_logs_topic : Str
unfolding str
default_logs_topic = str "otlp_logs"

abbrev pub default_encoding : Str
unfolding str
default_encoding = str "otlp_proto"

-- In nanoseconds.
abbrev pub default_metadata_retry_backoff : ℕ
default_metadata_retry_backoff = 250000000

abbrev pub default_producer_max_message_bytes : ℕ
default_producer_max_message_bytes = 1000000

abbrev pub default_max_attribute_value_size : ℕ
default_max_attribute_value_size = 131072

-- createDefaultConfig; `timeout` is that of exporterhelper.NewDefaultTimeoutSettings.
unfoldable pub create_default_config : ℕ → Config
create_default_config timeout = record {
  timeout = timeout;
  brokers = str "localhost:9092" ∷ [];
  resolve_canonical_bootstrap_servers_only = false;
  protocol_version = [];
  client_id = str "sarama";
  topic = [];
  topic_from_attribute = [];
  encoding = default_encoding;
  partition_traces_by_id = false;
  partition_metrics_by_resource_attributes = false;
  metadata = record {
    full = true;
    retry = record { max = 3; backoff = default_metadata_retry_backoff };
  };
  producer = record {
    max_message_bytes = default_producer_max_message_bytes;
    required_acks = pos 1;
    compression = str "none";
    flush_max_messages = 0;
  };
  sasl = none;
  compression = record { codec = []; level = pos 0 };
  span_curing = record {
    enabled = false;
    drop_spans = false;
    max_attribute_value_size_bytes = 0;
    dump_span_attributes = false;
  };
}

-- What the Jaeger encodings use: the translator, the protobuf encoding of a span, the printing of a float64, its zero, and the versions of sarama.
pub record Jaeger (T V D L E : Type 0) : Type 0 where
  pub proto_from_traces : T → E ⊎ List (Batch D L)
  pub marshal_span : Span D L → E ⊎ Bytes
  pub format_float : D → Str
  pub zero_float : D
  pub parse_version : Str → E ⊎ V
  pub v2_0_0 : V
  pub at_least_v0_11 : V → Bool

-- newMetricsExporter, newTracesExporter and newLogsExporter return the map of marshalers, and the
-- exporter's marshaler; none is errUnrecognizedEncoding.
module _ {T E : Type 0} where
  -- `marshaler.(Keyable…Marshaler)` and Key.
  abbrev pub key : Bool → Marshaler T E → Marshaler T E
  key partition m = if partition && m.keyable then record m { keyed = true } else m

  -- The lookup, and the call of Key.
  unfoldable pub new_keyed_exporter :
      Bool → Str → GoMap (Marshaler T E) → GoMap (Marshaler T E) × Option (Marshaler T E)
  new_keyed_exporter partition encoding marshalers = elim (lookup encoding marshalers) [
    | none ↦ (marshalers, none)
    | some m ↦ (insert encoding (key partition m) marshalers, some (key partition m))
  ]

  unfoldable pub new_metrics_exporter :
      Config → GoMap (Marshaler T E) → GoMap (Marshaler T E) × Option (Marshaler T E)
  unfolding new_keyed_exporter
  new_metrics_exporter cfg marshalers =
      new_keyed_exporter cfg.partition_metrics_by_resource_attributes cfg.encoding marshalers

  unfoldable pub new_logs_exporter :
      Config → GoMap (Marshaler T E) → GoMap (Marshaler T E) × Option (Marshaler T E)
  unfolding lookup
  new_logs_exporter cfg marshalers = (marshalers, lookup cfg.encoding marshalers)

-- The test for the use of jaegerMarshalerCurer.
unfoldable pub cures_spans : Config → Bool
cures_spans cfg = cfg.span_curing.enabled && str_eq cfg.encoding (str "jaeger_proto")

module _ {T V D L E : Type 0} (j : Jaeger T V D L E) where
  -- `v`: sarama.V2_0_0_0 where the settings name no version or none that can be read.
  unfoldable pub curing_version : Config → V
  curing_version cfg =
      if is_empty cfg.protocol_version
      then j.v2_0_0
      else elim (j.parse_version cfg.protocol_version) [ inl _ ↦ j.v2_0_0 | inr v ↦ v ]

  -- The jaegerMarshalerCurer that is created.
  unfoldable pub curer : Config → CurerConfig D L E
  unfolding curing_version
  curer cfg = record {
    marshaler = jaeger_proto_span_marshaler j.marshal_span;
    at_least_v0_11 = j.at_least_v0_11 (curing_version cfg);
    max_message_bytes = cfg.producer.max_message_bytes;
    dump_span_attributes = cfg.span_curing.dump_span_attributes;
    max_attribute_value_size =
        if cfg.span_curing.max_attribute_value_size_bytes == 0
        then default_max_attribute_value_size
        else cfg.span_curing.max_attribute_value_size_bytes;
    drop_spans = cfg.span_curing.drop_spans;
    zero_float = j.zero_float;
  }

  -- jaegerMarshalerCurer as a TracesMarshaler: it has no method Key.
  unfoldable pub curing_marshaler : CurerConfig D L E → Marshaler T E
  curing_marshaler c = record {
    encoding = c.marshaler.encoding;
    keyable = false;
    keyed = false;
    encode = λ keyed td topic.
        let out = marshal j.format_float c topic (j.proto_from_traces td) in
        (out.messages, out.errors);
  }

  unfoldable pub new_traces_exporter :
      Config → GoMap (Marshaler T E) → GoMap (Marshaler T E) × Option (Marshaler T E)
  unfolding new_keyed_exporter cures_spans curing_marshaler curer
  new_traces_exporter cfg marshalers =
      let (marshalers', found) =
        new_keyed_exporter cfg.partition_traces_by_id cfg.encoding marshalers in
      elim found [
        | none ↦ (marshalers', none)
        | some m ↦ (marshalers', some (if cures_spans cfg then curing_marshaler (curer cfg) else m))
      ]

-- `oCfg`: the settings with a topic.
unfoldable pub with_topic : Str → Config → Config
with_topic default cfg = if is_empty cfg.topic then record cfg { topic = default } else cfg

-- The exporter that is created from what a constructor returns.
abbrev pub created :
    {T E P : Type 0}
    → Config
    → GoMap (Marshaler T E) × Option (Marshaler T E)
    → GoMap (Marshaler T E) × Option (KafkaProducer T E P)
created cfg (marshalers, none) = (marshalers, none)
created cfg (marshalers, some m) =
    (marshalers, some (record { cfg = cfg; producer = none; marshaler = m }))

module _ {T E P : Type 0} where
  unfoldable pub create_traces_exporter :
      {V D L : Type 0}
      → Jaeger T V D L E
      → Config
      → GoMap (Marshaler T E)
      → GoMap (Marshaler T E) × Option (KafkaProducer T E P)
  unfolding with_topic new_traces_exporter
  create_traces_exporter j cfg marshalers =
      let cfg' = with_topic default_traces_topic cfg in
      created cfg' (new_traces_exporter j cfg' marshalers)

  unfoldable pub create_metrics_exporter :
      Config → GoMap (Marshaler T E) → GoMap (Marshaler T E) × Option (KafkaProducer T E P)
  unfolding with_topic new_metrics_exporter
  create_metrics_exporter cfg marshalers =
      let cfg' = with_topic default_metrics_topic cfg in
      created cfg' (new_metrics_exporter cfg' marshalers)

  unfoldable pub create_logs_exporter :
      Config → GoMap (Marshaler T E) → GoMap (Marshaler T E) × Option (KafkaProducer T E P)
  unfolding with_topic new_logs_exporter
  create_logs_exporter cfg marshalers =
      let cfg' = with_topic default_logs_topic cfg in
      created cfg' (new_logs_exporter cfg' marshalers)

-- withTracesMarshalers, withMetricsMarshalers and withLogsMarshalers.
unfoldable pub with_marshalers :
    {T E : Type 0} → List (Marshaler T E) → GoMap (Marshaler T E) → GoMap (Marshaler T E)
unfolding insert
with_marshalers [] marshalers = marshalers
with_marshalers (m ∷ ms) marshalers = with_marshalers ms (insert m.encoding m marshalers)
