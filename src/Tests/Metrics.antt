-- ===== src/Tests/Metrics.antt =====
-- The metric remover and the processor that copies resource attributes, at concrete inputs.
use hypertrace_collector.Prelude.{
  ℕ, ◌≡◌, refl, Bool, true, false, some, none, List, [], ◌∷◌, Str, str, str_eq, if◌then◌else◌,
}
use hypertrace_collector.Prelude.GoMap.{GoMap, lookup, insert, erase}
use hypertrace_collector.Pdata.Attributes.{
  is_some, attribute_service_name, attribute_service_instance_id,
}
use hypertrace_collector.Pdata.Metrics.{Points, empty, gauge, no_value, Metric, Metrics, all_maps}
use hypertrace_collector.MetricRemover.{MetricSlice, MetricRemover, process_metrics}
use hypertrace_collector.MetricRemover.Laws.{every_metric, typed, skeleton, process_metrics_lem}
use hypertrace_collector.ResourceAttrs.{oc_service_instance_id_attr_key}
use hypertrace_collector.ResourceAttrs
use hypertrace_collector.ResourceAttrs.Merge.{merged, dropped, or_else, stored, get-merged}
use hypertrace_collector.ResourceAttrs.Batches.{expected_maps, process_metrics-merges}
use hypertrace_collector.Tests.Sample.{attrs}

module _ {A : Type 0} where
  remove_matching : (A → Bool) → List A → List A
  remove_matching f [] = []
  remove_matching f (x ∷ xs) = let rest = remove_matching f xs in if f x then rest else x ∷ rest

  remove_matching-cons :
      (f : A → Bool) (x : A) (xs : List A)
      → remove_matching f (x ∷ xs)
        ≡ (if f x then remove_matching f xs else x ∷ remove_matching f xs)
  unfolding remove_matching
  remove_matching-cons f x xs = refl

  remove_matching-nil : (f : A → Bool) → remove_matching f [] ≡ []
  unfolding remove_matching
  remove_matching-nil f = refl

  abbrev slice : MetricSlice A
  slice = record {
    remove_if = remove_matching;
    remove_if-nil = remove_matching-nil;
    remove_if-cons = remove_matching-cons;
  }

abbrev metric : Points (GoMap Str) ℕ → Metric (GoMap Str) ℕ
metric ps = record { name = str "m"; description = []; unit = []; points = ps }

abbrev point_attrs : GoMap Str
point_attrs = (oc_service_instance_id_attr_key, str "1") ∷ (str "a", str "b") ∷ []

abbrev resource : GoMap Str
resource = (attribute_service_name, str "web") ∷ (str "job", str "j") ∷ (str "zone", str "z") ∷ []

abbrev batch : Metrics (GoMap Str) ℕ
batch =
    record {
      resource = resource;
      scopes =
          record {
            scope_name = str "s";
            metrics =
                metric empty
                ∷ metric (
                    gauge (
                      record {
                        attributes = point_attrs;
                        start_timestamp = 1;
                        timestamp = 2;
                        no_recorded_value = false;
                        value = no_value;
                      }
                      ∷ []))
                ∷ [];
          }
          ∷ [];
    }
    ∷ []

abbrev remover : MetricRemover
remover = record { remove_none_metric_type = true }

process_metrics_lem_example :
    (every_metric (process_metrics slice remover batch) ≡ typed (every_metric batch))
    × (skeleton (process_metrics slice remover batch) ≡ skeleton batch)
process_metrics_lem_example = process_metrics_lem slice remover batch

process_metrics-merges_example :
    all_maps (ResourceAttrs.process_metrics attrs batch) ≡ expected_maps attrs batch
process_metrics-merges_example = process_metrics-merges attrs batch

get-merged_example : lookup (str "zone") (merged attrs resource point_attrs) ≡ (
    if dropped
      (is_some (lookup attribute_service_name resource))
      (is_some (lookup attribute_service_instance_id resource))
      (str "zone")
    then none
    else or_else (lookup (str "zone") point_attrs) (stored attrs (lookup (str "zone") resource)))
get-merged_example = get-merged attrs resource point_attrs (str "zone") (unfold str str_eq in refl)

-- The resource attribute "zone" is copied.
zone_copied : lookup (str "zone") (merged attrs resource point_attrs) ≡ some (str "z")
unfolding merged lookup str str_eq insert erase
zone_copied = refl
