-- ===== src/Kafka/Exporter/Lifecycle.antt =====
-- exporter/kafkaexporter/kafka_exporter.modified.go: an exporter from its creation on, as the sequence of
-- the calls of start, of the pusher and of Close. What sarama does may differ from call to call, so a
-- call carries it. A call of a method of a nil producer panics, and a caller that goes on has recovered.
pub mod Calls
use hypertrace_collector.Prelude.{Option, none, some, List, [], ◌∷◌, map}
use hypertrace_collector.Pdata.Attributes.{AttributeMap}
use hypertrace_collector.Pdata.Traces.{Traces, resource_maps}
use hypertrace_collector.Pdata.Metrics.{Metrics}
use hypertrace_collector.Kafka.Message.{ProducerMessage}
use hypertrace_collector.Kafka.Exporter.{
  Marshaler, marshal_with, KafkaProducer, PushError, permanent, Sent, Sarama, StartError,
  push_result, get_topic, start, close,
}

-- How a pusher ends: the producer and the messages that it gives SendMessages, if it calls it, and the
-- error.
pub data Pushed (E P : Type 0) : Type 0 where
  nil_producer : Pushed E P
  returned : Option (P × List ProducerMessage) → Option (PushError E) → Pushed E P

module _ {E P : Type 0} (send : P → List ProducerMessage → Sent E) where
  -- A pusher's body for the producer that the exporter has and what the marshaler returned.
  unfoldable pub push_held : Option P → List ProducerMessage × List E → Pushed E P
  unfolding push_result
  push_held o (messages, e ∷ es) = returned none (some (permanent (e ∷ es)))
  push_held none (messages, []) = nil_producer
  push_held (some p) (messages, []) = returned (some (p, messages)) (push_result (send p messages))

module _ {M V E P : Type 0} (attrs : AttributeMap M V)
    (send : P → List ProducerMessage → Sent E) where
  -- The pusher of telemetry `td` whose resources have the attribute maps `rs`.
  unfoldable pub push_to : {T : Type 0} → KafkaProducer T E P → T → List M → Pushed E P
  unfolding push_held
  push_to e td rs =
      push_held send e.producer (marshal_with e.marshaler td (get_topic attrs e.cfg rs))

  unfoldable traces_pusher : KafkaProducer (Traces M) E P → Traces M → Pushed E P
  unfolding push_to
  traces_pusher e td = push_to e td (resource_maps td)

  unfoldable metrics_data_pusher :
      {D : Type 0} → KafkaProducer (Metrics M D) E P → Metrics M D → Pushed E P
  unfolding push_to
  metrics_data_pusher e md = push_to e md (map (λ r. r.resource) md)

  -- `resource_logs`: the attribute maps of the resources of a batch of logs.
  unfoldable logs_data_pusher : {L : Type 0} → (L → List M) → KafkaProducer L E P → L → Pushed E P
  unfolding push_to
  logs_data_pusher resource_logs e ld = push_to e ld (resource_logs ld)

-- A call of an exporter, and what sarama does in it.
pub data Call (V T E P : Type 0) : Type 0 where
  start_call : Sarama V E P → Call V T E P
  push_call : (P → List ProducerMessage → Sent E) → T → Call V T E P
  close_call : Call V T E P

-- What a call does to a producer: start may open one.
pub data Effect (P : Type 0) : Type 0 where
  no_effect : Effect P
  opened : P → Effect P
  sent : P → List ProducerMessage → Effect P
  closed : P → Effect P
  panicked : Effect P

abbrev pub push_effect : {E P : Type 0} → Pushed E P → Effect P
push_effect nil_producer = panicked
push_effect (returned none err) = no_effect
push_effect (returned (some (p, messages)) err) = sent p messages

module _ {T E P : Type 0} where
  abbrev pub start_effect : KafkaProducer T E P × Option (StartError E) → Effect P
  start_effect (e, some err) = no_effect
  start_effect (e, none) = elim e.producer [ none ↦ no_effect | some p ↦ opened p ]

  -- The producer whose Close is called, if one is.
  unfoldable pub close_effect : KafkaProducer T E P → Effect P
  unfolding close
  close_effect e = elim (close (λ p. some p) e) [ none ↦ no_effect | some p ↦ closed p ]

module _ {M V U T E P : Type 0} (attrs : AttributeMap M U) (resources : T → List M) where
  unfoldable pub step : KafkaProducer T E P → Call V T E P → KafkaProducer T E P × Effect P
  unfolding push_to start close_effect
  step e (start_call s) = ((start s e).0, start_effect (start s e))
  step e (push_call send td) = (e, push_effect (push_to attrs send e td (resources td)))
  step e close_call = (e, close_effect e)

  unfoldable pub run : KafkaProducer T E P → List (Call V T E P) → List (Effect P)
  unfolding step
  run e [] = []
  run e (c ∷ cs) = (step e c).1 ∷ run (step e c).0 cs
