-- ===== src/Tests/Producers.antt =====
-- The calls of a Kafka exporter at concrete inputs.
use hypertrace_collector.Prelude.{
  ℕ, ◌≡◌, refl, inl, none, List, [], ◌∷◌, ◌++◌, map, Str, str, str_eq,
}
use hypertrace_collector.Prelude.GoMap.{GoMap, lookup}
use hypertrace_collector.Kafka.Message.{ProducerMessage}
use hypertrace_collector.Kafka.Marshalers.{keyless}
use hypertrace_collector.Kafka.Exporter.{
  KafkaProducer, Sent, Sarama, send_failed, new_sarama_producer, get_topic,
}
use hypertrace_collector.Kafka.Factory.{create_default_config}
use hypertrace_collector.Kafka.Exporter.Lifecycle.{
  Call, start_call, push_call, close_call, no_effect, opened, sent, closed, panicked, run,
}
use hypertrace_collector.Kafka.Exporter.Lifecycle.Calls.{
  Follows, sent_to, pushes, marshaled_by, run-Follows, run-lifecycle,
}
use hypertrace_collector.Tests.Sample.{attrs}
use hypertrace_collector.Tests.Exporter.{sarama, marshaler, send, config, telemetry}

abbrev exporter : KafkaProducer (List (GoMap Str)) Str ℕ
exporter = record { cfg = config; producer = none; marshaler = marshaler }

-- Its version cannot be read.
abbrev unreadable : Sarama ℕ Str ℕ
unreadable = record sarama { configure_authentication = λ a c. inl (str "no") }

-- The start fails, and a push panics; the next start opens the producer 1.
abbrev calls : List (Call ℕ (List (GoMap Str)) Str ℕ)
calls =
    start_call unreadable
    ∷ push_call (λ p. send) telemetry
    ∷ close_call
    ∷ start_call sarama
    ∷ push_call (λ p ms. send_failed (str "down")) telemetry
    ∷ close_call
    ∷ []

calls_effects :
    run attrs (λ td. td) exporter calls
    ≡ no_effect
      ∷ panicked
      ∷ no_effect
      ∷ opened 1
      ∷ sent 1 (keyless (str "t1") (1 ∷ []) ∷ [])
      ∷ closed 1
      ∷ []
unfolding run create_default_config str_eq str get_topic lookup
calls_effects = refl

run-Follows_example : Follows none (run attrs (λ td. td) exporter calls)
run-Follows_example = run-Follows attrs (λ td. td) exporter calls

abbrev batches : List ((ℕ → List ProducerMessage → Sent Str) × List (GoMap Str))
batches = (λ p. send, telemetry) ∷ (λ p ms. send_failed (str "down"), telemetry) ∷ []

run-lifecycle_example :
    run attrs (λ td. td) exporter (start_call sarama ∷ (pushes batches ++ close_call ∷ []))
    ≡ opened 1
      ∷ (map (λ x. sent_to 1 (marshaled_by attrs (λ td. td) exporter (x.1))) batches
          ++ closed 1 ∷ [])
unfolding new_sarama_producer create_default_config str_eq str
run-lifecycle_example = run-lifecycle attrs (λ td. td) sarama exporter 1 batches refl
