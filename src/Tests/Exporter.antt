-- ===== src/Tests/Exporter.antt =====
-- The Kafka exporters and their settings at concrete inputs.
use hypertrace_collector.Prelude.{
  ℕ, ◌≤◌, ◌≡◌, ◌≢◌, ◌↔◌, refl, ◌⊎◌, inl, inr, true, false, none, some, List, [], ◌∷◌, Str, str,
  str_eq,
}
use hypertrace_collector.Prelude.All.{All}
use hypertrace_collector.Prelude.GoMap.{GoMap, lookup, insert}
use hypertrace_collector.Pdata.Metrics.{Metrics}
use hypertrace_collector.Kafka.Message.{Bytes, ProducerMessage, byte_size}
use hypertrace_collector.Kafka.Curer.{marshal}
use hypertrace_collector.Kafka.Config.{Config, ConfigError, validate, pos}
use hypertrace_collector.Kafka.Config.Valid.{Valid, validate_iff}
use hypertrace_collector.Kafka.Exporter.{
  Marshaler, KafkaProducer, Sent, delivered, SaramaConfig, Sarama, config_error, get_topic, push,
  new_sarama_producer,
}
use hypertrace_collector.Kafka.Exporter.Push.{attempted, marshaled, push_lem}
use hypertrace_collector.Kafka.Exporter.Start.{with_codec, new_sarama_producer-codec}
use hypertrace_collector.Kafka.Factory.{
  Jaeger, cures_spans, curing_marshaler, curer, create_default_config, new_metrics_exporter,
  new_traces_exporter, default_traces_topic, with_topic,
}
use hypertrace_collector.Kafka.Factory.Creation.{new_metrics_exporter-shared}
use hypertrace_collector.Kafka.Factory.Curing.{push-Fits}
use hypertrace_collector.Kafka.Marshalers.{
  Any, ResourceLogs, str_body, empty_body, log_body_as_bytes, raw_marshal, keyless, with_key,
}
use hypertrace_collector.Kafka.Marshalers.Raw.{all_or_first, as_messages, bodies, raw_marshal_lem}
use hypertrace_collector.Tests.Sample.{attrs}
use hypertrace_collector.Tests.Cures.{span}

abbrev pub defaults : Config
defaults = create_default_config 5

defaults_valid : validate defaults ≡ none
unfolding validate create_default_config str str_eq
defaults_valid = refl

validate_iff_example : (validate defaults ≡ none) ↔ Valid defaults
validate_iff_example = validate_iff defaults

abbrev sarama_config : SaramaConfig ℕ
sarama_config = record {
  client_id = [];
  return_successes = false;
  return_errors = false;
  required_acks = pos 0;
  timeout = 0;
  metadata_full = true;
  metadata_retry_max = 3;
  metadata_retry_backoff = 250;
  max_message_bytes = 0;
  flush_max_messages = 0;
  resolve_canonical_bootstrap_servers = false;
  version = 2;
  compression = hypertrace_collector.Kafka.Config.no_compression;
  compression_level = pos 0;
}

abbrev pub sarama : Sarama ℕ Str ℕ
sarama = record {
  new_config = sarama_config;
  parse_version = λ s. inr 3;
  configure_authentication = λ a c. inr c;
  new_sync_producer = λ brokers c. inr 1;
}

new_sarama_producer-codec_example :
    (new_sarama_producer sarama (with_codec (str "zip") defaults)
      ≡ new_sarama_producer sarama defaults)
    × ((e : ConfigError) → new_sarama_producer sarama defaults ≢ inl (config_error e))
new_sarama_producer-codec_example =
    new_sarama_producer-codec sarama defaults (str "zip") defaults_valid

-- Telemetry is its list of resources; one message with the value 1.
abbrev pub marshaler : Marshaler (List (GoMap Str)) Str
marshaler = record {
  encoding = str "jaeger_proto";
  keyable = true;
  keyed = false;
  encode = λ keyed td topic. (keyless topic (1 ∷ []) ∷ [], []);
}

abbrev pub send : List ProducerMessage → Sent Str
send ms = delivered

abbrev pub telemetry : List (GoMap Str)
telemetry = ((str "topic", str "t1") ∷ []) ∷ []

abbrev pub config : Config
config = record defaults {
  encoding = str "jaeger_proto";
  topic_from_attribute = str "topic";
  partition_traces_by_id = true;
  partition_metrics_by_resource_attributes = true;
  producer = record defaults.producer { max_message_bytes = 39 };
  span_curing = record {
    enabled = true;
    drop_spans = true;
    max_attribute_value_size_bytes = 2;
    dump_span_attributes = false;
  };
}

push_lem_example :
    (((push attrs (λ td. td) send config marshaler telemetry).1 ≡ none) ↔ (
      ((marshaled attrs (λ td. td) send config marshaler telemetry).1 ≡ [])
      × (send (marshaled attrs (λ td. td) send config marshaler telemetry).0 ≡ delivered)))
    × ((push attrs (λ td. td) send config marshaler telemetry).0
        ≡ attempted (marshaled attrs (λ td. td) send config marshaler telemetry))
push_lem_example = push_lem attrs (λ td. td) send config marshaler telemetry

abbrev pub jaeger : Jaeger (List (GoMap Str)) ℕ ℕ ℕ Str
jaeger = record {
  proto_from_traces = λ td. inr (record { process = none; spans = span ∷ [] } ∷ []);
  marshal_span = λ s. inr (1 ∷ 2 ∷ []);
  format_float = λ n. n ∷ [];
  zero_float = 0;
  parse_version = λ s. inr 2;
  v2_0_0 = 2;
  at_least_v0_11 = λ v. true;
}

abbrev marshalers : GoMap (Marshaler (List (GoMap Str)) Str)
marshalers = (str "jaeger_proto", marshaler) ∷ []

abbrev pub exporter : KafkaProducer (List (GoMap Str)) Str ℕ
exporter = record {
  cfg = with_topic default_traces_topic config;
  producer = none;
  marshaler = curing_marshaler jaeger (curer jaeger (with_topic default_traces_topic config));
}

abbrev unkeyed : Config
unkeyed = record config { partition_metrics_by_resource_attributes = false }

new_metrics_exporter-shared_example :
    (new_metrics_exporter unkeyed (new_metrics_exporter config marshalers).0).1
    ≡ some (record marshaler { keyed = true })
new_metrics_exporter-shared_example =
    new_metrics_exporter-shared config unkeyed marshalers marshaler
      (unfold lookup create_default_config str str_eq in refl) refl refl refl

abbrev cured : ProducerMessage
cured = record { topic = str "t1"; key = some (7 ∷ []); value = some (1 ∷ 2 ∷ []); headers = [] }

push-Fits_example : All (λ msg. byte_size true msg ≤ 39) (cured ∷ [])
unfolding create_default_config
push-Fits_example =
    push-Fits attrs (λ td. td) send jaeger config marshalers
      (curing_marshaler jaeger (curer jaeger config)) telemetry (cured ∷ [])
      (unfold cures_spans create_default_config str str_eq in refl) refl
      (unfold new_traces_exporter lookup insert create_default_config cures_spans str str_eq in
        refl)
      (unfold push curing_marshaler curer create_default_config get_topic lookup marshal str
          str_eq in
        refl)

abbrev json : Any ℕ ℕ ℕ → Str ⊎ Bytes
json v = inr (123 ∷ [])

abbrev logs : List (ResourceLogs ℕ ℕ ℕ)
logs =
    record { scope_logs = record { log_records = str_body (str "a") ∷ empty_body ∷ [] } ∷ [] } ∷ []

raw_marshal_lem_example :
    raw_marshal json (str "t") logs
    ≡ as_messages (str "t") (all_or_first (log_body_as_bytes json) (bodies logs))
raw_marshal_lem_example = raw_marshal_lem json (str "t") logs

-- The record with a text has a message, and the one with an empty body has none.
one_message : raw_marshal json (str "t") logs ≡ inr (keyless (str "t") (123 ∷ []) ∷ [])
unfolding raw_marshal
one_message = refl

abbrev metrics : Metrics (GoMap Str) ℕ
metrics = record { resource = []; scopes = [] } ∷ record { resource = []; scopes = [] } ∷ []

abbrev encode_metrics : Metrics (GoMap Str) ℕ → Str ⊎ Bytes
encode_metrics md = inr (5 ∷ [])

abbrev hash : GoMap Str → Bytes
hash m = 9 ∷ []

abbrev keyed_message : ProducerMessage
keyed_message = with_key (str "t") (9 ∷ []) (5 ∷ [])
