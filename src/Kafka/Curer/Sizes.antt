-- ===== src/Kafka/Curer/Sizes.antt =====
-- The sizes of the messages that jaegerMarshalerCurer.Marshal returns.
use hypertrace_collector.Prelude.{
  ◌≤◌, ◌≡◌, refl, ◌⊎◌, inl, inr, Bool, true, false, Option, List, [], ◌∷◌, Str, ltb, if◌then◌else◌,
  arith,
}
use hypertrace_collector.Prelude.All.{All, All-append}
use hypertrace_collector.Kafka.Message.{Bytes, ProducerMessage, byte_size}
use hypertrace_collector.Kafka.Span.{Process, Span, Batch}
use hypertrace_collector.Kafka.Cure.{CurerConfig, CureError, message_of, cure_span}
use hypertrace_collector.Kafka.Cure.Fits.{cure_span-Fits}
use hypertrace_collector.Kafka.Curer.{
  Log, Output, each_span, each_batch, each_translated, cured, marshal_span, marshal,
}

module _ {D L E : Type 0} (P : ProducerMessage → Type 0) (f : Span D L → Output E)
    (step : (s : Span D L) → All P (f s).messages) where
  each_span-All :
      (process : Option (Process D)) (ss : List (Span D L))
      → All P (each_span f process ss).messages
  unfolding each_span
  each_span-All process [] = tt
  each_span-All process (s ∷ ss) =
      All-append P (f (record s { process = process })).messages _
        (step (record s { process = process })) (each_span-All process ss)

  each_batch-All : (bs : List (Batch D L)) → All P (each_batch f bs).messages
  unfolding each_batch
  each_batch-All [] = tt
  each_batch-All (b ∷ bs) =
      All-append P (each_span f b.process b.spans).messages _ (each_span-All b.process b.spans)
        (each_batch-All bs)

  each_translated-All : (t : E ⊎ List (Batch D L)) → All P (each_translated f t).messages
  unfolding each_translated
  each_translated-All (inl e) = tt
  each_translated-All (inr bs) = each_batch-All bs

module _ {D L E : Type 0} (format_float : D → Str) (j : CurerConfig D L E) (topic : Str) where
  abbrev Fits : ProducerMessage → Type 0
  Fits msg = byte_size j.at_least_v0_11 msg ≤ j.max_message_bytes

  cured-Fits :
      (l : Log E) (msg : ProducerMessage) (r : CureError E ⊎ ProducerMessage)
      → j.drop_spans ≡ true
      → ((m : ProducerMessage) → r ≡ inr m → Fits m)
      → All Fits (cured format_float j topic l msg r).messages
  unfolding cured
  cured-Fits l msg (inr m) d fits = (fits m refl, tt)
  cured-Fits l msg (inl e) d fits = rw d tt

  oversize-Fits :
      (b : Bool) (msg : ProducerMessage) (o : Output E)
      → ltb j.max_message_bytes (byte_size j.at_least_v0_11 msg) ≡ b
      → All Fits o.messages
      → All Fits
          (if b then o else record { messages = msg ∷ []; errors = []; logged = [] }).messages
  oversize-Fits true msg o e h = h
  oversize-Fits false msg o e h = (ground arith, tt)

  marshal_span-Fits :
      (span : Span D L)
      → j.drop_spans ≡ true
      → All Fits (marshal_span format_float j topic span).messages
  unfolding marshal_span
  marshal_span-Fits span d = go (j.marshaler.marshal span) refl
    where
      go :
          (r : E ⊎ Bytes)
          → j.marshaler.marshal span ≡ r
          → All Fits (marshal_span format_float j topic span).messages
      go (inl e) h = rw (h, marshal_span) tt
      go (inr bts) h =
          rw (h, marshal_span)
            (oversize-Fits _ (message_of topic span bts) _ refl (
              cured-Fits _ (message_of topic span bts) (cure_span j topic span) d
                (λ m e. cure_span-Fits j topic span m e)))

  -- When spans that cannot be cured are dropped, every message that Marshal returns is within the
  -- producer's limit, whatever the spans are and whatever the span marshaler does.
  pub marshal-Fits :
      (translated : E ⊎ List (Batch D L))
      → j.drop_spans ≡ true
      → All
          (λ msg. byte_size j.at_least_v0_11 msg ≤ j.max_message_bytes)
          (marshal format_float j topic translated).messages
  unfolding marshal
  marshal-Fits translated d =
      each_translated-All Fits (marshal_span format_float j topic) (λ s. marshal_span-Fits s d)
        translated
