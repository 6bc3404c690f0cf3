-- ===== src/Prometheus/TargetInfo.antt =====
-- createTargetInfoMetrics (exporter/prometheusexporter/collector.go), and what Collect serves. The
-- normalization of labels and client_golang's NewConstMetric are parameters.
pub mod Resources
use hypertrace_collector.Prelude.{
  Bool, true, false, ◌||◌, ◌⊎◌, inl, inr, Option, none, some, List, [], ◌∷◌, ◌++◌, Str, str, str_eq,
  is_empty, if◌then◌else◌,
}
use hypertrace_collector.Prelude.GoMap.{GoMap, lookup, insert}
use hypertrace_collector.Pdata.Attributes.{
  AttributeMap, job_label, instance_label, attribute_service_name, attribute_service_namespace,
  attribute_service_instance_id,
}
use hypertrace_collector.Pdata.Metrics.{Metric}
use hypertrace_collector.Prometheus.Labels.{extract_job, extract_instance, resource_signature}

-- `_, ok := seenResource[sig]`
unfoldable pub seen : Str → List Str → Bool
seen s [] = false
seen s (t ∷ ts) = str_eq t s || seen s ts

-- The keys of the attributes that make the job and the instance.
unfoldable identifying : Str → Bool
identifying k =
    str_eq k attribute_service_name
    || (str_eq k attribute_service_namespace || str_eq k attribute_service_instance_id)

-- `labels[label] = value`, if there is a value.
unfoldable pub set_label : Str → Option Str → GoMap Str → GoMap Str
set_label label none labels = labels
set_label label (some s) labels = insert label s labels

module _ {M V : Type 0} (attrs : AttributeMap M V) where
  open attrs use {entries, as_string}

  -- The loop that drops resources without a job and an instance, and those whose job and instance were
  -- seen before.
  unfoldable pub deduplicate : List Str → List M → List M
  unfolding seen
  deduplicate sigs [] = []
  deduplicate sigs (r ∷ rs) =
      let sig = resource_signature attrs r in
      let old = deduplicate sigs rs in
      let new = deduplicate (sig ∷ sigs) rs in
      if is_empty sig then old else if seen sig sigs then old else r ∷ new

  -- The labels of the attributes other than the identifying ones; the values of attributes with the same
  -- normalized key are joined with ";".
  unfoldable pub attribute_labels : (Str → Str) → GoMap V → GoMap Str → GoMap Str
  unfolding identifying lookup insert
  attribute_labels normalize [] labels = labels
  attribute_labels normalize ((k, v) ∷ es) labels = attribute_labels normalize es (
      if identifying k then labels else elim (lookup (normalize k) labels) [
        | none ↦ insert (normalize k) (as_string v) labels
        | some old ↦ insert (normalize k) (old ++ (str ";" ++ as_string v)) labels
      ])

  -- The labels of one target info metric.
  unfoldable pub target_labels : (Str → Str) → M → GoMap Str
  unfolding attribute_labels set_label
  target_labels normalize r =
      set_label instance_label (extract_instance attrs r)
        (set_label job_label (extract_job attrs r) (attribute_labels normalize (entries r) []))

  -- The loop over the resources: the metrics, and the last error. `new_const_metric` is given the labels
  -- in any order.
  unfoldable target_metrics :
      {P E : Type 0} → (Str → Str) → (GoMap Str → E ⊎ P) → List M → Option E → List P × Option E
  unfolding target_labels
  target_metrics normalize new_const_metric [] last = ([], last)
  target_metrics normalize new_const_metric (r ∷ rs) last =
      elim (new_const_metric (target_labels normalize r)) [
        | inl e ↦ target_metrics normalize new_const_metric rs (some e)
        | inr p ↦
            let rest = target_metrics normalize new_const_metric rs last in (p ∷ rest.0, rest.1)
      ]

  unfoldable create_target_info_metrics :
      {P E : Type 0} → (Str → Str) → (GoMap Str → E ⊎ P) → List M → List P × Option E
  unfolding target_metrics deduplicate
  create_target_info_metrics normalize new_const_metric rs =
      target_metrics normalize new_const_metric (deduplicate [] rs) none

-- What Collect serves, and the errors that it logs.
pub record Served (P E : Type 0) : Type 0 where
  pub metrics : List P
  pub errors : List E

module _ {M D P E : Type 0} (convert : Metric M D → M → E ⊎ P) where
  -- The loop over the accumulated metrics; `convert` is convertMetric.
  unfoldable serve : List (Metric M D × M) → Served P E
  serve [] = record { metrics = []; errors = [] }
  serve ((m, r) ∷ ms) =
      let rest = serve ms in
      elim (convert m r) [
        | inl e ↦ record { metrics = rest.metrics; errors = e ∷ rest.errors }
        | inr p ↦ record { metrics = p ∷ rest.metrics; errors = rest.errors }
      ]

abbrev log_error : {E : Type 0} → Option E → List E → List E
log_error none es = es
log_error (some e) es = e ∷ es

abbrev resources_of : {M D : Type 0} → List (Metric M D × M) → List M
resources_of [] = []
resources_of ((m, r) ∷ ms) = r ∷ resources_of ms

-- Collect, for what the accumulator's Collect returned.
unfoldable pub collect :
    {M V D P E : Type 0}
    → AttributeMap M V
    → (Str → Str)
    → (GoMap Str → E ⊎ P)
    → (Metric M D → M → E ⊎ P)
    → List (Metric M D × M)
    → Served P E
unfolding create_target_info_metrics serve
collect attrs normalize new_const_metric convert ms =
    let target = create_target_info_metrics attrs normalize new_const_metric (resources_of ms) in
    let rest = serve convert ms in
    record { metrics = target.0 ++ rest.metrics; errors = log_error target.1 rest.errors }
