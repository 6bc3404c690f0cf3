-- ===== src/Tests/SpanCounter.antt =====
-- The span counter at concrete inputs.
use hypertrace_collector.Prelude.{
  ℕ, ◌≡◌, refl, ◌↔◌, true, false, some, [], ◌∷◌, map, Str, str, str_eq, is_empty,
}
use hypertrace_collector.Prelude.All.{All}
use hypertrace_collector.Prelude.GoMap.{GoMap, lookup, insert}
use hypertrace_collector.Pdata.Traces.{Span, Traces}
use hypertrace_collector.Pdata.Telemetry.{Measurement}
use hypertrace_collector.SpanCounter.Config.{
  SpanConfig, Config, SpanCounter, tag_span_criteria_label, stat_criteria_based_span_count,
}
use hypertrace_collector.SpanCounter.Process.{span_matches_config, process_traces}
use hypertrace_collector.SpanCounter.Process.Matching.{Matches, span_matches_config_iff}
use hypertrace_collector.SpanCounter.Process.Counts.{expected, process_traces-counts}
use hypertrace_collector.SpanCounter.Process.Labels.{process_traces-one_label}
use hypertrace_collector.Tests.Sample.{attrs, tags, insert_tag}

abbrev by_name : SpanConfig
by_name = record { label = str "gets"; span_name = str "GET"; span_attributes = [] }

abbrev by_attribute : SpanConfig
by_attribute = record {
  label = [];
  span_name = [];
  span_attributes = record { key = str "a"; value = str "b" } ∷ [];
}

abbrev any_span : SpanConfig
any_span = record { label = str "all"; span_name = []; span_attributes = [] }

abbrev config : Config
config = record {
  tenant_id_attribute_key = [];
  tenant_configs =
      record {
        tenant_id = str "acme";
        service_configs =
            record { service_name = str "web"; span_configs = by_name ∷ any_span ∷ [] } ∷ [];
      }
      ∷ [];
}

abbrev counter : SpanCounter
counter = record {
  tenant_id_attribute_key = str "tenant-id";
  tenants = (str "acme", (str "web", by_name ∷ any_span ∷ []) ∷ []) ∷ [];
}

abbrev get_span : Span (GoMap Str)
get_span = record { name = str "GET"; attributes = (str "a", str "b") ∷ [] }

abbrev traces : Traces (GoMap Str)
traces =
    record {
      resource = (str "tenant-id", str "acme") ∷ (str "service.name", str "web") ∷ [];
      scopes = record { spans = get_span ∷ record { name = str "PUT"; attributes = [] } ∷ [] } ∷ [];
    }
    ∷ []

abbrev fresh : ℕ → Str
fresh n = str "label"

fresh_nonempty : (n : ℕ) → is_empty (fresh n) ≡ false
unfolding str
fresh_nonempty n = refl

span_matches_config_iff_example :
    (span_matches_config attrs get_span by_attribute ≡ true) ↔ Matches attrs get_span by_attribute
span_matches_config_iff_example = span_matches_config_iff attrs get_span by_attribute

process_traces-counts_example :
    ((process_traces attrs tags counter [] traces).0 ≡ traces)
    × (map (λ m. m.amount) (process_traces attrs tags counter [] traces).1
        ≡ expected attrs counter traces)
process_traces-counts_example = process_traces-counts attrs tags counter [] traces

-- The two counts of one call, one of spans named GET and one of all spans: 1 and 2.
two_counts : map (λ m. m.amount) (process_traces attrs tags counter [] traces).1 ≡ 1 ∷ 2 ∷ []
unfolding process_traces str str_eq lookup
two_counts = refl

abbrev measured : GoMap Str → ℕ → Measurement (GoMap Str)
measured t n = record { measure = stat_criteria_based_span_count; tags = t; amount = n }

abbrev gets_tags : GoMap Str
gets_tags = insert_tag [] tag_span_criteria_label (str "gets")

-- The count of the criterion "all" carries the label "gets" of the criterion before it.
process_traces-one_label_example :
    All
      (λ k. lookup tag_span_criteria_label k.tags ≡ some (str "gets"))
      (measured (insert_tag gets_tags tag_span_criteria_label (str "all")) 2 ∷ [])
process_traces-one_label_example =
    process_traces-one_label attrs tags (str "gets") counter [] traces (measured gets_tags 1)
      (measured (insert_tag gets_tags tag_span_criteria_label (str "all")) 2 ∷ [])
      (unfold process_traces str str_eq lookup in refl)
      (unfold insert_tag lookup insert str str_eq in refl)
