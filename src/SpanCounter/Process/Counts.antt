-- ===== src/SpanCounter/Process/Counts.antt =====
-- The amounts that one call of ProcessTraces records.
use hypertrace_collector.Prelude.{
  ℕ, zero, suc, ◌≡◌, refl, ◌∙◌, List, [], ◌∷◌, ◌++◌, map, map-append, append_assoc, append-nil,
  count_if, count_if-append, arith,
}
use hypertrace_collector.Prelude.GoMap.{GoMap, lookup}
use hypertrace_collector.Pdata.Attributes.{AttributeMap}
use hypertrace_collector.Pdata.Traces.{Span, ScopeSpans, Traces}
use hypertrace_collector.Pdata.Telemetry.{TagMap}
use hypertrace_collector.SpanCounter.Config.{SpanConfig, SpanCounter, ServicesMap}
use hypertrace_collector.SpanCounter.Process.{
  Run, record_count, spans_matching, span_matches_config, count_criteria, criteria_of,
  count_resources, process_counts, process_traces,
}

-- All spans of a resource.
abbrev spans_of : {M : Type 0} → List (ScopeSpans M) → List (Span M)
spans_of [] = []
spans_of (s ∷ ss) = s.spans ++ spans_of ss

-- A count that is positive is recorded.
abbrev if_positive : ℕ → List ℕ
if_positive zero = []
if_positive (suc n) = suc n ∷ []

module _ {M V : Type 0} (attrs : AttributeMap M V) where
  spans_matching_lem :
      (c : SpanConfig) (ss : List (ScopeSpans M))
      → spans_matching attrs c ss ≡ count_if (λ x. span_matches_config attrs x c) (spans_of ss)
  unfolding spans_matching
  spans_matching_lem c [] = refl
  spans_matching_lem c (s ∷ ss) = rw (count_if-append, spans_matching_lem c ss)

  -- The counts of the criteria `cs` over the spans of a resource, without zeros.
  abbrev expected_counts : List SpanConfig → List (Span M) → List ℕ
  expected_counts [] xs = []
  expected_counts (c ∷ cs) xs =
      if_positive (count_if (λ x. span_matches_config attrs x c) xs) ++ expected_counts cs xs

  abbrev pub expected : SpanCounter → Traces M → List ℕ
  expected p [] = []
  expected p (r ∷ rs) =
      expected_counts (criteria_of attrs p r.resource) (spans_of r.scopes) ++ expected p rs

  module _ {T : Type 0} (tagging : TagMap T) where
    abbrev amounts : Run T → List ℕ
    amounts s = map (λ m. m.amount) s.recorded

    record_count-amounts :
        (c : SpanConfig) (n : ℕ) (s : Run T)
        → amounts (record_count attrs tagging c n s) ≡ amounts s ++ if_positive n
    unfolding record_count
    record_count-amounts c zero s = rw append-nil
    record_count-amounts c (suc n) s = rw map-append

    count_criteria-amounts :
        (scopes : List (ScopeSpans M)) (cs : List SpanConfig) (s : Run T)
        → amounts (count_criteria attrs tagging scopes cs s)
          ≡ amounts s ++ expected_counts cs (spans_of scopes)
    unfolding count_criteria
    count_criteria-amounts scopes [] s = rw append-nil
    count_criteria-amounts scopes (c ∷ cs) s =
        count_criteria-amounts scopes cs
          (record_count attrs tagging c (spans_matching attrs c scopes) s)
        ∙ rw (
          record_count-amounts c (spans_matching attrs c scopes) s,
          spans_matching_lem c scopes,
          append_assoc,
        )

    count_resources-amounts :
        (p : SpanCounter) (rs : Traces M) (s : Run T)
        → amounts (count_resources attrs tagging p rs s) ≡ amounts s ++ expected p rs
    unfolding count_resources
    count_resources-amounts p [] s = rw append-nil
    count_resources-amounts p (r ∷ rs) s =
        count_resources-amounts p rs
          (count_criteria attrs tagging r.scopes (criteria_of attrs p r.resource) s)
        ∙ rw (count_criteria-amounts r.scopes (criteria_of attrs p r.resource) s, append_assoc)

    criteria_of-nil : (p : SpanCounter) (m : M) → p.tenants ≡ [] → criteria_of attrs p m ≡ []
    unfolding criteria_of lookup
    criteria_of-nil p m e = ground arith

    expected-nil : (p : SpanCounter) (rs : Traces M) → p.tenants ≡ [] → expected p rs ≡ []
    expected-nil p [] e = refl
    expected-nil p (r ∷ rs) e = rw (criteria_of-nil p r.resource e, expected-nil p rs e)

    -- For each resource, in order, and each criterion configured for its tenant and service, in order,
    -- one measurement with the number of the resource's spans that match the criterion is recorded,
    -- unless that number is 0. Nothing else is recorded, and the traces are returned as they came.
    pub process_traces-counts :
        (p : SpanCounter) (tags : T) (rs : Traces M)
        → ((process_traces attrs tagging p tags rs).0 ≡ rs)
          × (map (λ m. m.amount) (process_traces attrs tagging p tags rs).1 ≡ expected p rs)
    unfolding process_traces process_counts
    process_traces-counts p tags rs = (refl, go p.tenants refl)
      where
        go :
            (m : GoMap ServicesMap)
            → p.tenants ≡ m
            → amounts (process_counts attrs tagging p tags rs) ≡ expected p rs
        go [] e = ground (arith, expected-nil p rs e)
        go (x ∷ m) e =
            ground (arith, count_resources-amounts p rs (record { tags = tags; recorded = [] }))
