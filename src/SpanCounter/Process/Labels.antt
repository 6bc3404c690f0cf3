-- ===== src/SpanCounter/Process/Labels.antt =====
-- The labels of the measurements that one call records.
use hypertrace_collector.Prelude.{
  ℕ, zero, suc, ◌≡◌, refl, subst, some, List, [], ◌∷◌, ◌++◌, Str, str_eq_refl,
}
use hypertrace_collector.Prelude.All.{All, All-append}
use hypertrace_collector.Prelude.GoMap.{GoMap}
use hypertrace_collector.Pdata.Attributes.{AttributeMap}
use hypertrace_collector.Pdata.Traces.{ScopeSpans, Traces}
use hypertrace_collector.Pdata.Telemetry.{TagMap, Measurement}
use hypertrace_collector.SpanCounter.Config.{
  SpanConfig, SpanCounter, tag_span_criteria_label, stat_criteria_based_span_count, ServicesMap,
}
use hypertrace_collector.SpanCounter.Process.{
  Run, record_count, spans_matching, count_criteria, criteria_of, count_resources, process_counts,
  process_traces,
}

module _ {T : Type 0} (tagging : TagMap T) (l : Str) where
  -- `tag.Insert` does not update a label that the context carries.
  insert-keeps_label :
      (t : T) (v : Str)
      → tagging.value t tag_span_criteria_label ≡ some l
      → tagging.value (tagging.insert t tag_span_criteria_label v) tag_span_criteria_label ≡ some l
  insert-keeps_label t v h = rw (tagging.value-insert, str_eq_refl, h)

  -- If the first measurement has the label `l`, then so have the later ones, and the context.
  abbrev OneLabel : T → List (Measurement T) → Type 0
  OneLabel t [] = Unit
  OneLabel t (m ∷ ms) =
      tagging.value m.tags tag_span_criteria_label ≡ some l
      → All (λ k. tagging.value k.tags tag_span_criteria_label ≡ some l) ms
        × (tagging.value t tag_span_criteria_label ≡ some l)

  append-OneLabel :
      (t : T) (ms : List (Measurement T)) (v : Str) (n : ℕ)
      → OneLabel t ms
      → let t' = tagging.insert t tag_span_criteria_label v in
        OneLabel t'
          (ms ++ record { measure = stat_criteria_based_span_count; tags = t'; amount = n } ∷ [])
  append-OneLabel t [] v n h = λ e. (tt, e)
  append-OneLabel t (m ∷ ms) v n h = λ e.
      let (rest, x) = h e in
      (All-append _ ms _ rest (insert-keeps_label t v x, tt), insert-keeps_label t v x)

module _ {M V T : Type 0} (attrs : AttributeMap M V) (tagging : TagMap T) (l : Str) where
  record_count-OneLabel :
      (c : SpanConfig) (n : ℕ) (s : Run T)
      → OneLabel tagging l s.tags s.recorded
      → let s' = record_count attrs tagging c n s in OneLabel tagging l s'.tags s'.recorded
  unfolding record_count
  record_count-OneLabel c zero s h = h
  record_count-OneLabel c (suc n) s h =
      append-OneLabel tagging l s.tags s.recorded c.label (suc n) h

  count_criteria-OneLabel :
      (scopes : List (ScopeSpans M)) (cs : List SpanConfig) (s : Run T)
      → OneLabel tagging l s.tags s.recorded
      → let s' = count_criteria attrs tagging scopes cs s in OneLabel tagging l s'.tags s'.recorded
  unfolding count_criteria
  count_criteria-OneLabel scopes [] s h = h
  count_criteria-OneLabel scopes (c ∷ cs) s h =
      count_criteria-OneLabel scopes cs
        (record_count attrs tagging c (spans_matching attrs c scopes) s)
        (record_count-OneLabel c (spans_matching attrs c scopes) s h)

  count_resources-OneLabel :
      (p : SpanCounter) (rs : Traces M) (s : Run T)
      → OneLabel tagging l s.tags s.recorded
      → let s' = count_resources attrs tagging p rs s in OneLabel tagging l s'.tags s'.recorded
  unfolding count_resources
  count_resources-OneLabel p [] s h = h
  count_resources-OneLabel p (r ∷ rs) s h =
      count_resources-OneLabel p rs
        (count_criteria attrs tagging r.scopes (criteria_of attrs p r.resource) s)
        (count_criteria-OneLabel r.scopes (criteria_of attrs p r.resource) s h)

  process_counts-OneLabel :
      (p : SpanCounter) (tags : T) (rs : Traces M)
      → let s = process_counts attrs tagging p tags rs in OneLabel tagging l s.tags s.recorded
  unfolding process_counts
  process_counts-OneLabel p tags rs = go p.tenants refl
    where
      go :
          (m : GoMap ServicesMap)
          → p.tenants ≡ m
          → let s = process_counts attrs tagging p tags rs in OneLabel tagging l s.tags s.recorded
      go [] e = rw (e, process_counts) tt
      go (x ∷ m) e =
          rw (e, process_counts)
            (count_resources-OneLabel p rs (record { tags = tags; recorded = [] }) tt)

  -- If the first measurement of a call carries the label l, then all measurements of the call carry l,
  -- whatever criteria the later ones count: the context is assigned anew in the loops, and `tag.Insert` does not update a key.
  pub process_traces-one_label :
      (p : SpanCounter) (tags : T) (rs : Traces M) (m : Measurement T) (ms : List (Measurement T))
      → (process_traces attrs tagging p tags rs).1 ≡ m ∷ ms
      → tagging.value m.tags tag_span_criteria_label ≡ some l
      → All (λ k. tagging.value k.tags tag_span_criteria_label ≡ some l) ms
  unfolding process_traces
  process_traces-one_label p tags rs m ms e h =
      ((subst (OneLabel tagging l _) e (process_counts-OneLabel p tags rs)) h).0
