-- ===== src/Kafka/Cure/Fits.antt =====
-- The size of the message that cureSpan returns (exporter/kafkaexporter/jaeger_marshaler_curer.go).
use hypertrace_collector.Prelude.{
  ℕ, zero, suc, ◌/◌, ◌≤◌, ◌≡◌, inr, Bool, true, false, some, List, [], ◌++◌, Str, arith,
}
use hypertrace_collector.Kafka.Message.{ProducerMessage, byte_size}
use hypertrace_collector.Kafka.Span.{Span}
use hypertrace_collector.Kafka.Truncate.{truncated_keys}
use hypertrace_collector.Kafka.Cure.{
  CurerConfig, fitting, halve_logs, log_rounds, cure_span_logs, truncate_span, rounds, cure_span,
  max_truncation_tries,
}

module _ {D L E : Type 0} (j : CurerConfig D L E) (topic : Str) where
  abbrev Fits : ProducerMessage → Type 0
  Fits msg = byte_size j.at_least_v0_11 msg ≤ j.max_message_bytes

  fitting-Fits :
      (span : Span D L) (msg : ProducerMessage) → fitting j topic span ≡ inr (some msg) → Fits msg
  unfolding fitting
  fitting-Fits span msg h = ground arith

  log_rounds-Fits :
      (n : ℕ) (appended : Bool) (span : Span D L) (msg : ProducerMessage)
      → log_rounds j topic n appended span ≡ inr msg
      → Fits msg
  unfolding log_rounds
  log_rounds-Fits zero appended span msg h = cc
  log_rounds-Fits (suc n) appended span msg h = ground (
    arith,
    fitting-Fits (halve_logs j appended span) msg,
    log_rounds-Fits n true (halve_logs j appended span) msg,
  )

  rounds-Fits :
      (n size : ℕ) (seen : List Str) (span : Span D L) (msg : ProducerMessage)
      → rounds j topic n size seen span ≡ inr msg
      → Fits msg
  unfolding rounds cure_span_logs
  rounds-Fits zero size seen span msg h =
      ground (arith, log_rounds-Fits max_truncation_tries false span msg)
  rounds-Fits (suc n) size seen span msg h = ground (
    arith,
    fitting-Fits (truncate_span j size seen span) msg,
    rounds-Fits n (size / 2) (truncated_keys size seen span.tags ++ seen)
        (truncate_span j size seen span) msg,
  )

  -- The message of a cured span is not larger than the limit.
  pub cure_span-Fits :
      (span : Span D L) (msg : ProducerMessage)
      → cure_span j topic span ≡ inr msg
      → byte_size j.at_least_v0_11 msg ≤ j.max_message_bytes
  unfolding cure_span
  cure_span-Fits span msg h =
      rounds-Fits max_truncation_tries j.max_attribute_value_size [] span msg h
