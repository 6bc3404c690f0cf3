-- ===== src/Kafka/Exporter.antt =====
-- exporter/kafkaexporter/kafka_exporter.modified.go: the pushers, newSaramaProducer, the constructors
-- and getTopic. sarama and kafka.ConfigureAuthentication are parameters. `T` is the type of what is
-- exported, `M` of its resources' attribute maps, `E` of errors.
pub mod Lifecycle
pub mod Push
pub mod Start
use hypertrace_collector.Prelude.{
  ℕ, Bool, true, false, ◌&&◌, ◌⊎◌, inl, inr, Option, none, some, List, [], ◌∷◌, Str, str, str_eq,
  length, is_empty, ◌==◌, if◌then◌else◌,
}
use hypertrace_collector.Pdata.Attributes.{AttributeMap}
use hypertrace_collector.Kafka.Message.{ProducerMessage}
use hypertrace_collector.Kafka.Config.{
  SaslConfig, Config, ConfigError, Codec, no_compression, ℤ, pos, negsuc,
  sarama_producer_compression_codec,
}

-- TracesMarshaler, MetricsMarshaler and LogsMarshaler. A marshaler that has a method Key keeps a flag,
-- which `encode` is given; the error is nil where the list of errors is empty.
pub record Marshaler (T E : Type 0) : Type 0 where
  pub encoding : Str
  pub keyable : Bool
  pub keyed : Bool
  pub encode : Bool → T → Str → List ProducerMessage × List E

abbrev pub marshal_with : {T E : Type 0} → Marshaler T E → T → Str → List ProducerMessage × List E
marshal_with m td topic = m.encode m.keyed td topic

-- What SendMessages returns: nil, sarama.ProducerErrors with the texts of their errors, or another
-- error.
pub data Sent (E : Type 0) : Type 0 where
  delivered : Sent E
  producer_errors : List Str → Sent E
  send_failed : E → Sent E

-- The error of a pusher; an empty sarama.ProducerErrors is returned as it is.
pub data PushError (E : Type 0) : Type 0 where
  permanent : List E → PushError E
  kafka_errors : ℕ → Str → PushError E
  no_producer_errors : PushError E
  not_sent : E → PushError E

module _ {M V : Type 0} (attrs : AttributeMap M V) where
  open attrs use {get, str_of}

  -- getTopic's loop.
  unfoldable pub topic_of : Config → List M → Str
  topic_of cfg [] = cfg.topic
  topic_of cfg (r ∷ rs) =
      let rest = topic_of cfg rs in
      elim (get r cfg.topic_from_attribute) [
        | none ↦ rest
        | some v ↦ if is_empty (str_of v) then rest else str_of v
      ]

  unfoldable pub get_topic : Config → List M → Str
  unfolding topic_of
  get_topic cfg rs = if is_empty cfg.topic_from_attribute then cfg.topic else topic_of cfg rs

-- The error of a pusher for what SendMessages returned; none is nil.
unfoldable pub push_result : {E : Type 0} → Sent E → Option (PushError E)
push_result delivered = none
push_result (producer_errors []) = some no_producer_errors
push_result (producer_errors (e ∷ es)) = some (kafka_errors (length (e ∷ es)) e)
push_result (send_failed e) = some (not_sent e)

-- kafkaTracesProducer, kafkaMetricsProducer and kafkaLogsProducer; `producer` is set by start.
pub record KafkaProducer (T E P : Type 0) : Type 0 where
  pub cfg : Config
  pub producer : Option P
  pub marshaler : Marshaler T E

-- The body of a pusher, for what the marshaler returned: the messages that are given to SendMessages, if
-- it is called, and the error. `send` is SendMessages.
unfoldable pub push_marshaled :
    {E : Type 0}
    → (List ProducerMessage → Sent E)
    → List ProducerMessage × List E
    → Option (List ProducerMessage) × Option (PushError E)
unfolding push_result
push_marshaled send (messages, []) = (some messages, push_result (send messages))
push_marshaled send (messages, e ∷ es) = (none, some (permanent (e ∷ es)))

-- tracesPusher, metricsDataPusher and logsDataPusher, which are the same but for their types, in a
-- started exporter. `resources` are the attribute maps of the resources.
module _ {M V T E : Type 0} (attrs : AttributeMap M V) (resources : T → List M)
    (send : List ProducerMessage → Sent E) where
  unfoldable pub push :
      Config → Marshaler T E → T → Option (List ProducerMessage) × Option (PushError E)
  unfolding get_topic push_marshaled
  push cfg m td = push_marshaled send (marshal_with m td (get_topic attrs cfg (resources td)))

-- The part of sarama.Config that the code sets.
pub record SaramaConfig (V : Type 0) : Type 0 where
  pub client_id : Str
  pub return_successes : Bool
  pub return_errors : Bool
  pub required_acks : ℤ
  pub timeout : ℕ
  pub metadata_full : Bool
  pub metadata_retry_max : ℕ
  pub metadata_retry_backoff : ℕ
  pub max_message_bytes : ℕ
  pub flush_max_messages : ℕ
  pub resolve_canonical_bootstrap_servers : Bool
  pub version : V
  pub compression : Codec
  pub compression_level : ℤ

abbrev is_zero : ℤ → Bool
is_zero (pos n) = n == 0
is_zero (negsuc n) = false

-- sarama and kafka, as newSaramaProducer uses them: sarama.NewConfig, ParseKafkaVersion,
-- ConfigureAuthentication and NewSyncProducer.
pub record Sarama (V E P : Type 0) : Type 0 where
  pub new_config : SaramaConfig V
  pub parse_version : Str → E ⊎ V
  pub configure_authentication : Option SaslConfig → SaramaConfig V → E ⊎ SaramaConfig V
  pub new_sync_producer : List Str → SaramaConfig V → E ⊎ P

-- The errors of newSaramaProducer.
pub data StartError (E : Type 0) : Type 0 where
  failed : E → StartError E
  config_error : ConfigError → StartError E

module _ {V E P : Type 0} (s : Sarama V E P) where
  -- The settings before authentication, with the version `v`.
  unfoldable pub base_config : Config → V → SaramaConfig V
  base_config cfg v = record s.new_config {
    client_id = cfg.client_id;
    return_successes = true;
    return_errors = true;
    required_acks = cfg.producer.required_acks;
    timeout = cfg.timeout;
    metadata_full = cfg.metadata.full;
    metadata_retry_max = cfg.metadata.retry.max;
    metadata_retry_backoff = cfg.metadata.retry.backoff;
    max_message_bytes = cfg.producer.max_message_bytes;
    flush_max_messages = cfg.producer.flush_max_messages;
    resolve_canonical_bootstrap_servers =
        if cfg.resolve_canonical_bootstrap_servers_only
        then true
        else s.new_config.resolve_canonical_bootstrap_servers;
    version = v;
  }

  -- The version that the settings name, or else that of sarama.NewConfig.
  unfoldable pub configured_version : Config → E ⊎ V
  configured_version cfg =
      if is_empty cfg.protocol_version
      then inr s.new_config.version
      else s.parse_version cfg.protocol_version

  unfoldable pub compressed : Config → SaramaConfig V → ConfigError ⊎ SaramaConfig V
  unfolding sarama_producer_compression_codec
  compressed cfg c =
      let name =
        if is_empty cfg.producer.compression
        then cfg.compression.codec
        else cfg.producer.compression in
      elim (sarama_producer_compression_codec name) [
        | inl e ↦ inl e
        | inr codec ↦ inr (record c {
          compression = codec;
          compression_level =
              if is_zero cfg.compression.level then c.compression_level else cfg.compression.level;
        })
      ]

  -- The settings up to ConfigureAuthentication.
  unfoldable pub authenticated : Config → E ⊎ SaramaConfig V
  unfolding base_config configured_version
  authenticated cfg = elim (configured_version cfg) [
    | inl e ↦ inl e
    | inr v ↦ s.configure_authentication cfg.sasl (base_config cfg v)
  ]

  -- The compression, and the producer.
  unfoldable pub connected : Config → SaramaConfig V → StartError E ⊎ P
  unfolding compressed
  connected cfg c = elim (compressed cfg c) [
    | inl e ↦ inl (config_error e)
    | inr c' ↦ elim (s.new_sync_producer cfg.brokers c') [ inl e ↦ inl (failed e) | inr p ↦ inr p ]
  ]

  unfoldable pub new_sarama_producer : Config → StartError E ⊎ P
  unfolding authenticated connected
  new_sarama_producer cfg = elim (authenticated cfg) [
    | inl e ↦ inl (failed e)
    | inr c ↦ connected cfg c
  ]

  -- start: the exporter has the producer only where there is no error.
  unfoldable pub start :
      {T : Type 0} → KafkaProducer T E P → KafkaProducer T E P × Option (StartError E)
  unfolding new_sarama_producer
  start e = elim (new_sarama_producer e.cfg) [
    | inl err ↦ (e, some err)
    | inr p ↦ (record e { producer = some p }, none)
  ]

-- Close, of an exporter that may not have been started.
unfoldable pub close : {T E P X : Type 0} → (P → Option X) → KafkaProducer T E P → Option X
close close_producer e = elim e.producer [ none ↦ none | some p ↦ close_producer p ]
