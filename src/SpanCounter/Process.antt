-- ===== src/SpanCounter/Process.antt =====
-- processors/spancounter/spancounterprocessor.go: ProcessTraces and spanMatchesConfig. The traces are
-- returned as they came; what a call does is what it records.
pub mod Matching
pub mod Counts
pub mod Labels
use hypertrace_collector.Prelude.{
  ℕ, zero, suc, ◌+◌, Bool, true, false, not, ◌&&◌, ◌||◌, Option, none, some, List, [], ◌∷◌, ◌++◌,
  Str, str_eq, is_empty, if◌then◌else◌, count_if,
}
use hypertrace_collector.Prelude.GoMap.{GoMap, lookup}
use hypertrace_collector.Pdata.Attributes.{AttributeMap, attribute_service_name}
use hypertrace_collector.Pdata.Traces.{Span, ScopeSpans, ResourceSpans, Traces}
use hypertrace_collector.Pdata.Telemetry.{TagMap, Measurement}
use hypertrace_collector.SpanCounter.Config.{
  SpanAttribute, SpanConfig, ServicesMap, SpanCounter, tag_span_criteria_label,
  stat_criteria_based_span_count,
}

-- What the loops carry: the tags of `ctx`, which the code assigns anew, and what was recorded.
pub record Run (T : Type 0) : Type 0 where
  pub tags : T
  pub recorded : List (Measurement T)

module _ {M V : Type 0} (attrs : AttributeMap M V) where
  open attrs use {get, str_of}

  -- One round of the loop over `spanConfig.SpanAttributes`.
  unfoldable pub attribute_matches : M → SpanAttribute → Bool
  attribute_matches m a = elim (get m a.key) [
    | none ↦ false
    | some v ↦ is_empty a.value || str_eq a.value (str_of v)
  ]

  unfoldable pub attributes_match : M → List SpanAttribute → Bool
  unfolding attribute_matches
  attributes_match m [] = true
  attributes_match m (a ∷ rest) = attribute_matches m a && attributes_match m rest

  -- spanMatchesConfig
  unfoldable pub span_matches_config : Span M → SpanConfig → Bool
  unfolding attributes_match
  span_matches_config span c =
      if not (is_empty c.span_name) && not (str_eq span.name c.span_name)
      then false
      else attributes_match span.attributes c.span_attributes

  -- The loops over the scopes of a resource and their spans.
  unfoldable pub spans_matching : SpanConfig → List (ScopeSpans M) → ℕ
  unfolding span_matches_config
  spans_matching c [] = 0
  spans_matching c (s ∷ ss) = count_if (λ x. span_matches_config x c) s.spans + spans_matching c ss

  -- `rs.Resource().Attributes().Get(key)`, and the tests that it was found and is not empty.
  unfoldable resource_str : Str → M → Option Str
  resource_str key m = elim (get m key) [
    | none ↦ none
    | some v ↦ if is_empty (str_of v) then none else some (str_of v)
  ]

  -- The criteria that apply to a resource; `[]` where the loop goes on with the next resource.
  unfoldable pub criteria_of : SpanCounter → M → List SpanConfig
  unfolding resource_str
  criteria_of p m = elim (resource_str p.tenant_id_attribute_key m) [
    | none ↦ []
    | some tenant ↦ elim (lookup tenant p.tenants) [
      | none ↦ []
      | some services ↦ elim (resource_str attribute_service_name m) [
        | none ↦ []
        | some service ↦ elim (lookup service services) [ none ↦ [] | some cs ↦ cs ]
      ]
    ]
  ]

  module _ {T : Type 0} (tagging : TagMap T) where
    -- The end of a round: `ctx` is assigned, and the count recorded, only if it is positive.
    unfoldable pub record_count : SpanConfig → ℕ → Run T → Run T
    record_count c zero s = s
    record_count c (suc n) s =
        let tags' = tagging.insert s.tags tag_span_criteria_label c.label in
        record {
          tags = tags';
          recorded =
              s.recorded
              ++ record { measure = stat_criteria_based_span_count; tags = tags'; amount = suc n }
                ∷ [];
        }

    -- The loop over the criteria of one resource.
    unfoldable pub count_criteria : List (ScopeSpans M) → List SpanConfig → Run T → Run T
    unfolding record_count spans_matching
    count_criteria scopes [] s = s
    count_criteria scopes (c ∷ cs) s =
        count_criteria scopes cs (record_count c (spans_matching c scopes) s)

    -- The loop over the resources.
    unfoldable pub count_resources : SpanCounter → Traces M → Run T → Run T
    unfolding count_criteria criteria_of
    count_resources p [] s = s
    count_resources p (r ∷ rs) s =
        count_resources p rs (count_criteria r.scopes (criteria_of p r.resource) s)

    unfoldable pub process_counts : SpanCounter → T → Traces M → Run T
    unfolding count_resources
    process_counts p tags traces = elim p.tenants [
      | [] ↦ record { tags = tags; recorded = [] }
      | _ ∷ _ ↦ count_resources p traces (record { tags = tags; recorded = [] })
    ]

    -- ProcessTraces: the traces that it returns, and what it records under the tags of its context.
    unfoldable pub process_traces : SpanCounter → T → Traces M → Traces M × List (Measurement T)
    unfolding process_counts
    process_traces p tags traces = (traces, (process_counts p tags traces).recorded)
