-- ===== src/Kafka/Factory/Curing.antt =====
-- The exporter of traces with span curing, from its settings to what it sends.
use hypertrace_collector.Prelude.{
  ◌≤◌, ◌≡◌, refl, true, Option, none, some, List, [], ◌∷◌, Str, arith,
}
use hypertrace_collector.Prelude.All.{All}
use hypertrace_collector.Prelude.GoMap.{GoMap}
use hypertrace_collector.Pdata.Attributes.{AttributeMap}
use hypertrace_collector.Kafka.Message.{ProducerMessage, byte_size}
use hypertrace_collector.Kafka.Curer.Sizes.{marshal-Fits}
use hypertrace_collector.Kafka.Config.{Config}
use hypertrace_collector.Kafka.Exporter.{Marshaler, marshal_with, Sent, push, get_topic}
use hypertrace_collector.Kafka.Exporter.Push.{attempted, marshaled, push_lem}
use hypertrace_collector.Kafka.Factory.{
  Jaeger, new_keyed_exporter, curing_version, curer, curing_marshaler, cures_spans,
  new_traces_exporter,
}

module _ {T U D L E : Type 0} (j : Jaeger T U D L E) (cfg : Config) where
  exporter_cures :
      (ms : GoMap (Marshaler T E)) (m : Marshaler T E)
      → (new_traces_exporter j cfg ms).1 ≡ some m
      → cures_spans cfg ≡ true
      → m ≡ curing_marshaler j (curer j cfg)
  unfolding new_traces_exporter
  exporter_cures ms m h on =
      go (new_keyed_exporter cfg.partition_traces_by_id cfg.encoding ms).1 refl
    where
      go :
          (r : Option (Marshaler T E))
          → (new_keyed_exporter cfg.partition_traces_by_id cfg.encoding ms).1 ≡ r
          → m ≡ curing_marshaler j (curer j cfg)
      go none p = cc (rw (p, new_traces_exporter) at h)
      go (some k) p = ground (arith, rw (p, on, new_traces_exporter) at h)

attempted-messages :
    {E : Type 0} (r : List ProducerMessage × List E) (msgs : List ProducerMessage)
    → attempted r ≡ some msgs
    → msgs ≡ r.0
attempted-messages (ms, []) msgs h = ground (arith, h)
attempted-messages (ms, e ∷ es) msgs h = cc

module _ {M V T U D L E : Type 0} (attrs : AttributeMap M V) (resources : T → List M)
    (send : List ProducerMessage → Sent E) (j : Jaeger T U D L E) (cfg : Config) where
  abbrev Fits : ProducerMessage → Type 0
  Fits msg =
      byte_size (j.at_least_v0_11 (curing_version j cfg)) msg ≤ cfg.producer.max_message_bytes

  curing_marshaler-Fits :
      (td : T) (topic : Str)
      → cfg.span_curing.drop_spans ≡ true
      → All Fits (marshal_with (curing_marshaler j (curer j cfg)) td topic).0
  unfolding curing_marshaler curer
  curing_marshaler-Fits td topic drop =
      marshal-Fits j.format_float (curer j cfg) topic (j.proto_from_traces td) drop

  -- With span curing on, the encoding jaeger_proto and the dropping of spans on, no message that the
  -- exporter gives to SendMessages is larger than `producer.max_message_bytes`.
  pub push-Fits :
      (ms : GoMap (Marshaler T E)) (m : Marshaler T E) (td : T) (msgs : List ProducerMessage)
      → cures_spans cfg ≡ true
      → cfg.span_curing.drop_spans ≡ true
      → (new_traces_exporter j cfg ms).1 ≡ some m
      → (push attrs resources send cfg m td).0 ≡ some msgs
      → All
          (λ msg.
            byte_size (j.at_least_v0_11 (curing_version j cfg)) msg
            ≤ cfg.producer.max_message_bytes)
          msgs
  push-Fits ms m td msgs on drop made pushed =
      let curing = exporter_cures j cfg ms m made on in
      let sent : attempted (marshaled attrs resources send cfg m td) ≡ some msgs =
        cc ((push_lem attrs resources send cfg m td).1, pushed) in
      let e = attempted-messages (marshaled attrs resources send cfg m td) msgs sent in
      rw (e, curing) (curing_marshaler-Fits td (get_topic attrs cfg (resources td)) drop)
