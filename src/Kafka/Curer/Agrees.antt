-- ===== src/Kafka/Curer/Agrees.antt =====
-- jaegerMarshalerCurer against jaegerMarshaler.
use hypertrace_collector.Prelude.{
  ◌≤◌, ◌≡◌, refl, ap₂, ◌⊎◌, inl, inr, Option, List, [], ◌∷◌, Str, ltb, if◌then◌else◌, arith,
}
use hypertrace_collector.Prelude.All.{All, All-append_left, All-append_right}
use hypertrace_collector.Kafka.Message.{Bytes, ProducerMessage, byte_size}
use hypertrace_collector.Kafka.Span.{Process, Span, Batch}
use hypertrace_collector.Kafka.Cure.{CurerConfig, message_of}
use hypertrace_collector.Kafka.Curer.{
  Output, append_output, each_span, each_batch, each_translated, marshal_span, marshal,
  marshal_plain_span, marshal_plain,
}

module _ {D L E : Type 0} (format_float : D → Str) (j : CurerConfig D L E) (topic : Str) where
  abbrev Fits : ProducerMessage → Type 0
  Fits msg = byte_size j.at_least_v0_11 msg ≤ j.max_message_bytes

  not_oversize :
      (msg : ProducerMessage) (o r : Output E)
      → Fits msg
      → (if ltb j.max_message_bytes (byte_size j.at_least_v0_11 msg) then o else r) ≡ r
  not_oversize msg o r h = ground arith

  marshal_span-eq :
      (span : Span D L)
      → All Fits (marshal_plain_span j.marshaler topic span).messages
      → marshal_span format_float j topic span ≡ marshal_plain_span j.marshaler topic span
  unfolding marshal_span marshal_plain_span
  marshal_span-eq span = go (j.marshaler.marshal span) refl
    where
      go :
          (r : E ⊎ Bytes)
          → j.marshaler.marshal span ≡ r
          → All Fits (marshal_plain_span j.marshaler topic span).messages
          → marshal_span format_float j topic span ≡ marshal_plain_span j.marshaler topic span
      go (inl e) h fits = rw (h, marshal_span, marshal_plain_span)
      go (inr bts) h fits =
          let fit = (rw (h, marshal_plain_span) at fits).0 in
          rw (h, marshal_span, marshal_plain_span)
            (not_oversize (message_of topic span bts) _ _ fit)

  each_span-eq :
      (process : Option (Process D)) (ss : List (Span D L))
      → All Fits (each_span (marshal_plain_span j.marshaler topic) process ss).messages
      → each_span (marshal_span format_float j topic) process ss
        ≡ each_span (marshal_plain_span j.marshaler topic) process ss
  unfolding each_span
  each_span-eq process [] h = refl
  each_span-eq process (s ∷ ss) h =
      ap₂ append_output
        (marshal_span-eq (record s { process = process }) (All-append_left Fits _ _ h))
        (each_span-eq process ss (
          All-append_right Fits
            (marshal_plain_span j.marshaler topic (record s { process = process })).messages _ h))

  each_batch-eq :
      (bs : List (Batch D L))
      → All Fits (each_batch (marshal_plain_span j.marshaler topic) bs).messages
      → each_batch (marshal_span format_float j topic) bs
        ≡ each_batch (marshal_plain_span j.marshaler topic) bs
  unfolding each_batch
  each_batch-eq [] h = refl
  each_batch-eq (b ∷ bs) h =
      ap₂ append_output (each_span-eq b.process b.spans (All-append_left Fits _ _ h)) (
        each_batch-eq bs (
          All-append_right Fits
            (each_span (marshal_plain_span j.marshaler topic) b.process b.spans).messages _ h))

  -- If every message of jaegerMarshaler is within the limit, then jaegerMarshalerCurer returns the same
  -- messages and errors, and logs nothing.
  pub marshal-eq-marshal_plain :
      (translated : E ⊎ List (Batch D L))
      → All
          (λ msg. byte_size j.at_least_v0_11 msg ≤ j.max_message_bytes)
          (marshal_plain j.marshaler topic translated).messages
      → marshal format_float j topic translated ≡ marshal_plain j.marshaler topic translated
  unfolding marshal marshal_plain each_translated
  marshal-eq-marshal_plain (inl e) h = refl
  marshal-eq-marshal_plain (inr bs) h = each_batch-eq bs h
