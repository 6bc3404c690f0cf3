-- ===== src/Kafka/Curer.antt =====
-- The Marshal methods of jaegerMarshaler (exporter/kafkaexporter/jaeger_marshaler.go) and of
-- jaegerMarshalerCurer (jaeger_marshaler_curer.go). `ProtoFromTraces` is a parameter: its result is the
-- argument `translated`.
pub mod Sizes
pub mod Agrees
use hypertrace_collector.Prelude.{
  ℕ, ◌⊎◌, inl, inr, Bool, true, false, Option, none, some, List, [], ◌∷◌, ◌++◌, Str, ltb,
  if◌then◌else◌,
}
use hypertrace_collector.Kafka.Message.{Bytes, ProducerMessage, byte_size}
use hypertrace_collector.Kafka.Span.{Process, Span, Batch, SpanMarshaler}
use hypertrace_collector.Kafka.Describe.{span_as_string}
use hypertrace_collector.Kafka.Cure.{CurerConfig, CureError, message_of, cure_span}

-- What is logged about a span: its size, the limit and its description; why it could not be cured; and
-- that it is dropped.
pub data Log (E : Type 0) : Type 0 where
  too_large : ℕ → ℕ → Str → Log E
  not_cured : CureError E → Log E
  dropping : Log E

-- The messages, the errors that are joined into one, and what is logged.
pub record Output (E : Type 0) : Type 0 where
  pub messages : List ProducerMessage
  pub errors : List E
  pub logged : List (Log E)

abbrev no_output : {E : Type 0} → Output E
no_output = record { messages = []; errors = []; logged = [] }

abbrev pub append_output : {E : Type 0} → Output E → Output E → Output E
append_output a b = record {
  messages = a.messages ++ b.messages;
  errors = a.errors ++ b.errors;
  logged = a.logged ++ b.logged;
}

module _ {D L E : Type 0} where
  -- The two loops, over a function that treats one span: `span.Process = batch.Process` comes first.
  unfoldable pub each_span : (Span D L → Output E) → Option (Process D) → List (Span D L) → Output E
  each_span f process [] = no_output
  each_span f process (s ∷ ss) =
      append_output (f (record s { process = process })) (each_span f process ss)

  unfoldable pub each_batch : (Span D L → Output E) → List (Batch D L) → Output E
  unfolding each_span
  each_batch f [] = no_output
  each_batch f (b ∷ bs) = append_output (each_span f b.process b.spans) (each_batch f bs)

  -- `batches, err := jaeger.ProtoFromTraces(traces)`: an error ends the call with no message.
  unfoldable pub each_translated : (Span D L → Output E) → E ⊎ List (Batch D L) → Output E
  unfolding each_batch
  each_translated f (inl e) = record { messages = []; errors = e ∷ []; logged = [] }
  each_translated f (inr bs) = each_batch f bs

  -- jaegerMarshaler: one span.
  unfoldable pub marshal_plain_span : SpanMarshaler D L E → Str → Span D L → Output E
  unfolding message_of
  marshal_plain_span m topic span = elim (m.marshal span) [
    | inl e ↦ record { messages = []; errors = e ∷ []; logged = [] }
    | inr bts ↦ record { messages = message_of topic span bts ∷ []; errors = []; logged = [] }
  ]

  -- jaegerMarshaler.Marshal
  unfoldable pub marshal_plain : SpanMarshaler D L E → Str → E ⊎ List (Batch D L) → Output E
  unfolding marshal_plain_span each_translated
  marshal_plain m topic translated = each_translated (marshal_plain_span m topic) translated

module _ {D L E : Type 0} (format_float : D → Str) (j : CurerConfig D L E) (topic : Str) where
  -- The end of a round for a span that is too large, by what cureSpan returns.
  unfoldable pub cured : Log E → ProducerMessage → CureError E ⊎ ProducerMessage → Output E
  cured l msg (inr cured_msg) = record { messages = cured_msg ∷ []; errors = []; logged = l ∷ [] }
  cured l msg (inl e) =
      if j.drop_spans
      then record { messages = []; errors = []; logged = l ∷ not_cured e ∷ dropping ∷ [] }
      else record { messages = msg ∷ []; errors = []; logged = l ∷ not_cured e ∷ [] }

  -- jaegerMarshalerCurer: one span.
  unfoldable pub marshal_span : Span D L → Output E
  unfolding cured cure_span message_of byte_size
  marshal_span span = elim (j.marshaler.marshal span) [
    | inl e ↦ record { messages = []; errors = e ∷ []; logged = [] }
    | inr bts ↦
        let msg = message_of topic span bts in
        let size = byte_size j.at_least_v0_11 msg in
        if ltb j.max_message_bytes size
        then cured
            (too_large size j.max_message_bytes
              (span_as_string format_float j.dump_span_attributes span))
            msg (cure_span j topic span)
        else record { messages = msg ∷ []; errors = []; logged = [] }
  ]

  -- jaegerMarshalerCurer.Marshal
  unfoldable pub marshal : E ⊎ List (Batch D L) → Output E
  unfolding marshal_span each_translated
  marshal translated = each_translated marshal_span translated

  -- jaegerMarshalerCurer.Encoding
  pub encoding : Str
  encoding = j.marshaler.encoding
