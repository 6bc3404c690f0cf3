-- ===== src/Kafka/Factory/Creation.antt =====
-- What the constructors of the Kafka exporters set up.
use hypertrace_collector.Prelude.{
  ◌≡◌, refl, Bool, true, false, Option, none, some, List, Str, str, str_eq_iff, is_empty, arith,
}
use hypertrace_collector.Prelude.GoMap.{GoMap, lookup, lookup-insert}
use hypertrace_collector.Pdata.Attributes.{AttributeMap}
use hypertrace_collector.Kafka.Config.{Config}
use hypertrace_collector.Kafka.Exporter.{Marshaler, KafkaProducer, get_topic}
use hypertrace_collector.Kafka.Exporter.Push.{get_topic-nonempty}
use hypertrace_collector.Kafka.Factory.{
  Jaeger, default_traces_topic, new_keyed_exporter, new_metrics_exporter, new_traces_exporter,
  with_topic, created, create_traces_exporter,
}

with_topic-nonempty :
    (default : Str) (cfg : Config)
    → is_empty default ≡ false
    → is_empty (with_topic default cfg).topic ≡ false
unfolding with_topic
with_topic-nonempty default cfg h = ground arith

module _ {T E P : Type 0} where
  created-cfg :
      (cfg : Config) (r : GoMap (Marshaler T E) × Option (Marshaler T E)) (e : KafkaProducer T E P)
      → (created cfg r).1 ≡ some e
      → e.cfg ≡ cfg
  created-cfg cfg (ms, none) e h = cc
  created-cfg cfg (ms, some m) e h = ground (arith, h)

module _ {M V T U D L E P : Type 0} (attrs : AttributeMap M V) (j : Jaeger T U D L E) where
  -- An exporter of traces that the factory creates never pushes to a blank topic, whatever its settings
  -- and the resources are.
  pub create_traces_exporter-topic :
      (cfg : Config) (ms : GoMap (Marshaler T E)) (e : KafkaProducer T E P) (rs : List M)
      → (create_traces_exporter j cfg ms).1 ≡ some e
      → is_empty (get_topic attrs e.cfg rs) ≡ false
  unfolding create_traces_exporter str
  create_traces_exporter-topic cfg ms e rs h =
      let cfg' = with_topic default_traces_topic cfg in
      get_topic-nonempty attrs e.cfg rs (
        rw (created-cfg cfg' (new_traces_exporter j cfg' ms) e h)
          (with_topic-nonempty default_traces_topic cfg refl))

module _ {T E : Type 0} where
  -- Of two exporters of metrics that one factory creates for the same encoding, the second has keys
  -- whenever the first was created with keys, also where its own settings have
  -- `partition_metrics_by_resource_attributes` off: the factory's marshaler, if it can have keys,
  -- keeps them.
  pub new_metrics_exporter-shared :
      (first second : Config) (ms : GoMap (Marshaler T E)) (m : Marshaler T E)
      → lookup first.encoding ms ≡ some m
      → m.keyable ≡ true
      → first.partition_metrics_by_resource_attributes ≡ true
      → second.encoding ≡ first.encoding
      → (new_metrics_exporter second (new_metrics_exporter first ms).0).1
        ≡ some (record m { keyed = true })
  unfolding new_metrics_exporter new_keyed_exporter
  new_metrics_exporter-shared first second ms m found keyable on same =
      go (second.partition_metrics_by_resource_attributes) refl
    where
      go :
          (b : Bool)
          → second.partition_metrics_by_resource_attributes ≡ b
          → (new_metrics_exporter second (new_metrics_exporter first ms).0).1
            ≡ some (record m { keyed = true })
      go b p = ground (
        arith,
        lookup-insert first.encoding first.encoding (record m { keyed = true }) ms,
        str_eq_iff first.encoding first.encoding,
        p,
      )
