-- ===== src/Kafka/Cure.antt =====
-- cureSpan and cureSpanLogs (exporter/kafkaexporter/jaeger_marshaler_curer.go). Both change the span
-- that they are given; the changed span is not read after they fail, so they return the message only.
pub mod Fits
pub mod Tags
pub mod Marks
pub mod Result
pub mod Logs
use hypertrace_collector.Prelude.{
  ℕ, zero, suc, ◌/◌, ◌⊎◌, inl, inr, Bool, true, false, Option, none, some, List, [], ◌∷◌, ◌++◌, Str,
  length, leb, if◌then◌else◌,
}
use hypertrace_collector.Kafka.Message.{Bytes, ProducerMessage, byte_size}
use hypertrace_collector.Kafka.Span.{KeyValue, Span, SpanMarshaler}
use hypertrace_collector.Kafka.Truncate.{
  truncated_keys, truncate_tags, mark, span_logs_truncation_tag_name, cut_span_logs_by_half,
}

-- maximum number of times to attempt to truncate
abbrev pub max_truncation_tries : ℕ
max_truncation_tries = 5

-- 2 ^ maxTruncationTries
abbrev min_span_logs_arr_size : ℕ
min_span_logs_arr_size = 32

-- The fields of jaegerMarshalerCurer. `at_least_v0_11` is `version.IsAtLeast(sarama.V0_11_0_0)`, and
-- `zero_float` the float64 of a struct literal that does not set it.
pub record CurerConfig (D L E : Type 0) : Type 0 where
  pub marshaler : SpanMarshaler D L E
  pub at_least_v0_11 : Bool
  pub max_message_bytes : ℕ
  pub dump_span_attributes : Bool
  pub max_attribute_value_size : ℕ
  pub drop_spans : Bool
  pub zero_float : D

-- What cureSpan and cureSpanLogs return in place of a message.
pub data CureError (E : Type 0) : Type 0 where
  marshal_failed : E → CureError E
  unable_to_cure_span : CureError E
  unable_to_cure_span_logs : CureError E

-- The message of a span that was marshaled to `bts`.
unfoldable pub message_of : {D L : Type 0} → Str → Span D L → Bytes → ProducerMessage
message_of topic span bts = record {
  topic = topic;
  key = some span.trace_id;
  value = some bts;
  headers = [];
}

module _ {D L E : Type 0} (j : CurerConfig D L E) where
  -- One round of cureSpanLogs; the mark is appended in the first round only.
  unfoldable pub halve_logs : Bool → Span D L → Span D L
  halve_logs appended span = record span {
    logs = cut_span_logs_by_half span.logs;
    tags =
        if appended
        then span.tags
        else span.tags ++ mark j.zero_float span_logs_truncation_tag_name ∷ [];
  }

  -- The truncation in one round of cureSpan.
  unfoldable pub truncate_span : ℕ → List Str → Span D L → Span D L
  unfolding truncate_tags
  truncate_span size seen span = record span {
    tags = truncate_tags j.zero_float size seen span.tags;
  }

module _ {D L E : Type 0} (j : CurerConfig D L E) (topic : Str) where
  -- `j.marshaler.marshal(span)`, and the test of the message's size: the message if it fits, an error,
  -- or `inr none` to go on with the next round.
  unfoldable pub fitting : Span D L → CureError E ⊎ Option ProducerMessage
  unfolding message_of byte_size
  fitting span = elim (j.marshaler.marshal span) [
    | inl e ↦ inl (marshal_failed e)
    | inr bts ↦
        if leb (byte_size j.at_least_v0_11 (message_of topic span bts)) j.max_message_bytes
        then inr (some (message_of topic span bts))
        else inr none
  ]

  -- The rounds of cureSpanLogs that are left.
  unfoldable pub log_rounds : ℕ → Bool → Span D L → CureError E ⊎ ProducerMessage
  unfolding fitting halve_logs
  log_rounds zero appended span = inl unable_to_cure_span_logs
  log_rounds (suc n) appended span =
      let rest = log_rounds n true (halve_logs j appended span) in
      elim (fitting (halve_logs j appended span)) [
        | inl e ↦ inl e
        | inr (some msg) ↦ inr msg
        | inr none ↦ rest
      ]

  unfoldable pub cure_span_logs : Span D L → CureError E ⊎ ProducerMessage
  unfolding log_rounds
  cure_span_logs span = log_rounds max_truncation_tries false span

  -- The rounds of cureSpan that are left, at the attribute value size of the next one.
  unfoldable pub rounds : ℕ → ℕ → List Str → Span D L → CureError E ⊎ ProducerMessage
  unfolding fitting truncate_span cure_span_logs truncated_keys
  rounds zero size seen span =
      if leb min_span_logs_arr_size (length span.logs)
      then cure_span_logs span
      else inl unable_to_cure_span
  rounds (suc n) size seen span =
      let rest =
        rounds n (size / 2) (truncated_keys size seen span.tags ++ seen)
          (truncate_span j size seen span) in
      elim (fitting (truncate_span j size seen span)) [
        | inl e ↦ inl e
        | inr (some msg) ↦ inr msg
        | inr none ↦ rest
      ]

  unfoldable pub cure_span : Span D L → CureError E ⊎ ProducerMessage
  unfolding rounds
  cure_span span = rounds max_truncation_tries j.max_attribute_value_size [] span
