-- ===== src/Kafka/Cure/Result.antt =====
-- The span that the message of cureSpan carries.
use hypertrace_collector.Prelude.{
  ℕ, zero, suc, ◌/◌, ◌≤◌, ◌≡◌, refl, ◌∙◌, ◌⊎◌, inl, inr, Bool, true, false, Option, none, some,
  List, [], ◌∷◌, ◌++◌, Str, arith,
}
use hypertrace_collector.Prelude.All.{All, All-append}
use hypertrace_collector.Kafka.Message.{Bytes, ProducerMessage}
use hypertrace_collector.Kafka.Span.{KeyValue, Span}
use hypertrace_collector.Kafka.Truncate.{truncated_keys}
use hypertrace_collector.Kafka.Cure.{
  CurerConfig, CureError, message_of, fitting, halve_logs, log_rounds, cure_span_logs,
  truncate_span, rounds, cure_span, max_truncation_tries,
}
use hypertrace_collector.Kafka.Cure.Tags.{Within, truncate_tags-Within}

module _ {D L E : Type 0} (j : CurerConfig D L E) (topic : Str) where
  -- `msg` carries the span `s`.
  abbrev Carries : ProducerMessage → Span D L → Type 0
  Carries msg s = (bts : Bytes) × (j.marshaler.marshal s ≡ inr bts) × (msg ≡ message_of topic s bts)

  -- Two spans with the same identity: all but their tags and logs.
  abbrev SameSpan : Span D L → Span D L → Type 0
  SameSpan a b =
      (a.trace_id ≡ b.trace_id)
      × (a.span_id ≡ b.span_id)
      × (a.operation_name ≡ b.operation_name)
      × (a.start_time ≡ b.start_time)
      × (a.duration ≡ b.duration)
      × (a.process ≡ b.process)

  -- `msg` carries the span `span`, with tags within `size`.
  abbrev pub CuredAs : ℕ → Span D L → ProducerMessage → Type 0
  CuredAs size span msg =
      (s : Span D L) × Carries msg s × SameSpan s span × All (Within size) s.tags

  fitting-Carries :
      (span : Span D L) (msg : ProducerMessage)
      → fitting j topic span ≡ inr (some msg)
      → Carries msg span
  unfolding fitting
  fitting-Carries span msg h = go (j.marshaler.marshal span) refl
    where
      go : (r : E ⊎ Bytes) → j.marshaler.marshal span ≡ r → Carries msg span
      go (inl e) p = cc (rw (p, fitting) at h)
      go (inr bts) p = (bts, p, ground (arith, p))

  Within-le : (a b : ℕ) (kv : KeyValue D) → a ≤ b → Within a kv → Within b kv
  Within-le a b kv le h = omega (arith, le, h)

  All-Within-le :
      (a b : ℕ) (kvs : List (KeyValue D)) → a ≤ b → All (Within a) kvs → All (Within b) kvs
  All-Within-le a b [] le h = tt
  All-Within-le a b (kv ∷ kvs) le (x, r) = (Within-le a b kv le x, All-Within-le a b kvs le r)

  halve_logs-Within :
      (size : ℕ) (appended : Bool) (span : Span D L)
      → All (Within size) span.tags
      → All (Within size) (halve_logs j appended span).tags
  unfolding halve_logs
  halve_logs-Within size true span h = h
  halve_logs-Within size false span h = All-append (Within size) span.tags _ h (omega arith, tt)

  halve_logs-SameSpan :
      (appended : Bool) (span : Span D L) → SameSpan (halve_logs j appended span) span
  unfolding halve_logs
  halve_logs-SameSpan appended span = (refl, refl, refl, refl, refl, refl)

  truncate_span-SameSpan :
      (size : ℕ) (seen : List Str) (span : Span D L)
      → SameSpan (truncate_span j size seen span) span
  unfolding truncate_span
  truncate_span-SameSpan size seen span = (refl, refl, refl, refl, refl, refl)

  truncate_span-Within :
      (size : ℕ) (seen : List Str) (span : Span D L)
      → All (Within size) (truncate_span j size seen span).tags
  unfolding truncate_span
  truncate_span-Within size seen span = truncate_tags-Within j.zero_float size seen span.tags

  CuredAs-trans :
      (a b : ℕ) (s span : Span D L) (msg : ProducerMessage)
      → a ≤ b
      → SameSpan s span
      → CuredAs a s msg
      → CuredAs b span msg
  CuredAs-trans a b s span msg le (p0, p1, p2, p3, p4, p5) (x, c, (q0, q1, q2, q3, q4, q5), w) =
      (x, c, (q0 ∙ p0, q1 ∙ p1, q2 ∙ p2, q3 ∙ p3, q4 ∙ p4, q5 ∙ p5), All-Within-le a b x.tags le w)

  log_rounds-CuredAs :
      (n size : ℕ) (appended : Bool) (span : Span D L) (msg : ProducerMessage)
      → All (Within size) span.tags
      → log_rounds j topic n appended span ≡ inr msg
      → CuredAs size span msg
  unfolding log_rounds
  log_rounds-CuredAs zero size appended span msg w h = cc
  log_rounds-CuredAs (suc n) size appended span msg w h =
      go
        (log_rounds-CuredAs n size true (halve_logs j appended span) msg
          (halve_logs-Within size appended span w))
        (fitting j topic (halve_logs j appended span)) refl
    where
      go :
          (log_rounds j topic n true (halve_logs j appended span) ≡ inr msg
            → CuredAs size (halve_logs j appended span) msg)
          → (r : CureError E ⊎ Option ProducerMessage)
          → fitting j topic (halve_logs j appended span) ≡ r
          → CuredAs size span msg
      go ih (inl e) p = cc (rw (p, log_rounds) at h)
      go ih (inr (some m)) p = (
        halve_logs j appended span,
        fitting-Carries _ _ (cc (p, rw (p, log_rounds) at h)),
        halve_logs-SameSpan appended span,
        halve_logs-Within size appended span w,
      )
      go ih (inr none) p =
          CuredAs-trans size size (halve_logs j appended span) span msg (omega arith)
            (halve_logs-SameSpan appended span) (ih (rw (p, log_rounds) at h))

  round-CuredAs :
      (n size bound : ℕ) (seen : List Str) (span : Span D L) (msg : ProducerMessage)
      → size ≤ bound
      → (rounds j topic n
              (size / 2)
              (truncated_keys size seen span.tags ++ seen)
              (truncate_span j size seen span)
            ≡ inr msg
          → CuredAs bound (truncate_span j size seen span) msg)
      → rounds j topic (suc n) size seen span ≡ inr msg
      → CuredAs bound span msg
  unfolding rounds
  round-CuredAs n size bound seen span msg le ih h =
      go (fitting j topic (truncate_span j size seen span)) refl
    where
      go :
          (r : CureError E ⊎ Option ProducerMessage)
          → fitting j topic (truncate_span j size seen span) ≡ r
          → CuredAs bound span msg
      go (inl e) p = cc (rw (p, rounds) at h)
      go (inr (some m)) p = (
        truncate_span j size seen span,
        fitting-Carries _ _ (cc (p, rw (p, rounds) at h)),
        truncate_span-SameSpan size seen span,
        All-Within-le size bound (truncate_span j size seen span).tags le
            (truncate_span-Within size seen span),
      )
      go (inr none) p =
          CuredAs-trans bound bound (truncate_span j size seen span) span msg (omega arith)
            (truncate_span-SameSpan size seen span) (ih (rw (p, rounds) at h))

  -- After at least one round the tags are within the first size.
  later_rounds-CuredAs :
      (n size bound : ℕ) (seen : List Str) (span : Span D L) (msg : ProducerMessage)
      → size ≤ bound
      → All (Within bound) span.tags
      → rounds j topic n size seen span ≡ inr msg
      → CuredAs bound span msg
  unfolding rounds cure_span_logs
  later_rounds-CuredAs zero size bound seen span msg le w h =
      log_rounds-CuredAs max_truncation_tries bound false span msg w (ground arith)
  later_rounds-CuredAs (suc n) size bound seen span msg le w h =
      round-CuredAs n size bound seen span msg le
        (later_rounds-CuredAs n (size / 2) bound (truncated_keys size seen span.tags ++ seen)
          (truncate_span j size seen span) msg (omega arith)
          (All-Within-le size bound (truncate_span j size seen span).tags le
            (truncate_span-Within size seen span)))
        h

  -- A cured message carries a marshaled span that has the ids, the name, the start, the duration and the
  -- process of the given one, and of which the value of every tag of the string or the binary type is at most
  -- `max_attribute_value_size` bytes long.
  pub cure_span-CuredAs :
      (span : Span D L) (msg : ProducerMessage)
      → cure_span j topic span ≡ inr msg
      → CuredAs j.max_attribute_value_size span msg
  unfolding cure_span
  cure_span-CuredAs span msg h =
      round-CuredAs 4 j.max_attribute_value_size j.max_attribute_value_size [] span msg
        (omega arith)
        (later_rounds-CuredAs 4 _ j.max_attribute_value_size _ _ msg (omega arith)
          (truncate_span-Within j.max_attribute_value_size [] span))
        h
