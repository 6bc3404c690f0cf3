-- ===== src/Kafka/Config.antt =====
-- exporter/kafkaexporter/config.modified.go and compression.go: the settings of the Kafka exporter and
-- their validation. What the settings of exporterhelper hold is not modelled, nor is the part of
-- kafka.Authentication besides SASL.
pub mod Valid
pub use hypertrace_collector.Prelude.Int.{ℤ, pos, negsuc}
use hypertrace_collector.Prelude.{
  ℕ, Bool, true, false, ◌||◌, ◌⊎◌, inl, inr, Option, none, some, List, Str, str, str_eq, is_empty,
  ltb, if◌then◌else◌,
}

-- `z < lo || z > 1`, for the two values of `lo` that the code uses.
abbrev pub outside_minus1_1 : ℤ → Bool
outside_minus1_1 (pos n) = ltb 1 n
outside_minus1_1 (negsuc n) = ltb 0 n

abbrev pub outside_0_1 : ℤ → Bool
outside_0_1 (pos n) = ltb 1 n
outside_0_1 (negsuc n) = true

pub record MetadataRetry : Type 0 where
  pub max : ℕ
  pub backoff : ℕ

pub record Metadata : Type 0 where
  pub full : Bool
  pub retry : MetadataRetry

pub record Producer : Type 0 where
  pub max_message_bytes : ℕ
  pub required_acks : ℤ
  pub compression : Str
  pub flush_max_messages : ℕ

-- A size below 0 is not modelled.
pub record SpanCuring : Type 0 where
  pub enabled : Bool
  pub drop_spans : Bool
  pub max_attribute_value_size_bytes : ℕ
  pub dump_span_attributes : Bool

pub record Compression : Type 0 where
  pub codec : Str
  pub level : ℤ

-- kafka.SASLConfig
pub record SaslConfig : Type 0 where
  pub username : Str
  pub password : Str
  pub mechanism : Str
  pub version : ℤ

pub record Config : Type 0 where
  pub timeout : ℕ
  pub brokers : List Str
  pub resolve_canonical_bootstrap_servers_only : Bool
  pub protocol_version : Str
  pub client_id : Str
  pub topic : Str
  pub topic_from_attribute : Str
  pub encoding : Str
  pub partition_traces_by_id : Bool
  pub partition_metrics_by_resource_attributes : Bool
  pub metadata : Metadata
  pub producer : Producer
  pub sasl : Option SaslConfig
  pub compression : Compression
  pub span_curing : SpanCuring

-- sarama.CompressionCodec
pub data Codec : Type 0 where
  no_compression gzip snappy lz4 zstd : Codec

-- The errors of Validate.
pub data ConfigError : Type 0 where
  required_acks_range : ℤ → ConfigError
  unknown_compression : Str → ConfigError
  username_required : ConfigError
  password_required : ConfigError
  unknown_mechanism : Str → ConfigError
  version_range : ℤ → ConfigError

abbrev pub mechanism_known : Str → Bool
mechanism_known m =
    str_eq m (str "PLAIN")
    || (str_eq m (str "AWS_MSK_IAM")
        || (str_eq m (str "SCRAM-SHA-256") || str_eq m (str "SCRAM-SHA-512")))

unfoldable pub validate_sasl_config : Option SaslConfig → Option ConfigError
validate_sasl_config none = none
validate_sasl_config (some c) =
    if is_empty c.username
    then some username_required
    else if is_empty c.password
    then some password_required
    else if mechanism_known c.mechanism
    then (if outside_0_1 c.version then some (version_range c.version) else none)
    else some (unknown_mechanism c.mechanism)

unfoldable pub sarama_producer_compression_codec : Str → ConfigError ⊎ Codec
sarama_producer_compression_codec s =
    if str_eq s (str "none")
    then inr no_compression
    else if str_eq s (str "gzip")
    then inr gzip
    else if str_eq s (str "snappy")
    then inr snappy
    else if str_eq s (str "lz4")
    then inr lz4
    else if str_eq s (str "zstd")
    then inr zstd
    else inl (unknown_compression s)

-- Validate; none is no error.
unfoldable pub validate : Config → Option ConfigError
unfolding sarama_producer_compression_codec validate_sasl_config
validate cfg =
    if outside_minus1_1 cfg.producer.required_acks
    then some (required_acks_range cfg.producer.required_acks)
    else elim (sarama_producer_compression_codec cfg.producer.compression) [
      | inl e ↦ some e
      | inr _ ↦ validate_sasl_config cfg.sasl
    ]
