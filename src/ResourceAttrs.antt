-- ===== src/ResourceAttrs.antt =====
-- processors/metricresourceattrstoattrs/metricresourcesattrstolabels.go: the processor that copies the
-- attributes of a resource to the data points of its metrics.
pub mod Merge
pub mod Batches
use hypertrace_collector.Prelude.{
  ◌≡◌, Bool, true, false, ◌&&◌, ◌||◌, Option, none, some, List, [], ◌∷◌, map, Str, str, str_eq,
  if◌then◌else◌,
}
use hypertrace_collector.Prelude.GoMap.{GoMap}
use hypertrace_collector.Pdata.Attributes.{
  AttributeMap, is_some, attribute_service_name, attribute_service_instance_id, job_label,
  instance_label,
}
use hypertrace_collector.Pdata.Metrics.{
  NumberPoint, HistogramPoint, ExponentialPoint, SummaryPoint, Points, empty, gauge, sum, histogram,
  exponential_histogram, summary, Metric, ScopeMetrics, ResourceMetrics, Metrics,
}

abbrev pub oc_service_instance_id_attr_key : Str
unfolding str
oc_service_instance_id_attr_key = str "service_instance_id"

abbrev pub oc_service_name_attr_key : Str
unfolding str
oc_service_name_attr_key = str "service_name"

module _ {M D : Type 0} where
  -- applyToMetricAttributes
  pub apply_to_metric_attributes : (M → M) → Points M D → Points M D
  apply_to_metric_attributes f empty = empty
  apply_to_metric_attributes f (gauge ps) =
      gauge (map {A = NumberPoint M D} (λ p. record p { attributes = f p.attributes }) ps)
  apply_to_metric_attributes f (sum t m ps) =
      sum t m (map {A = NumberPoint M D} (λ p. record p { attributes = f p.attributes }) ps)
  apply_to_metric_attributes f (histogram t ps) =
      histogram t (map {A = HistogramPoint M D} (λ p. record p { attributes = f p.attributes }) ps)
  apply_to_metric_attributes f (exponential_histogram ps) =
      exponential_histogram
        (map {A = ExponentialPoint M} (λ p. record p { attributes = f p.attributes }) ps)
  apply_to_metric_attributes f (summary ps) =
      summary (map {A = SummaryPoint M D} (λ p. record p { attributes = f p.attributes }) ps)

-- The test that leaves a resource attribute out.
unfoldable pub skipped : Bool → Bool → Str → Bool
skipped has_name has_id key =
    (str_eq key job_label && has_name) || (str_eq key instance_label && has_id)

module _ {M V : Type 0} (attrs : AttributeMap M V) where
  open attrs use {get, put_str, remove, entries, as_string}

  -- `_, ok := am.Get(k)`
  abbrev has : M → Str → Bool
  has m k = is_some (get m k)

  -- The function that is applied for one resource attribute.
  unfoldable pub copy_attribute : Str → V → M → M
  copy_attribute key v am =
      if str_eq key attribute_service_instance_id
      then (if has am oc_service_instance_id_attr_key then am else put_str am key (as_string v))
      else (if has am key then am else put_str am key (as_string v))

  -- The function that removes the labels which the exporter adds.
  unfoldable pub remove_labels : Bool → Bool → M → M
  remove_labels has_name has_id am =
      let am' = if has_name then remove (remove am job_label) oc_service_name_attr_key else am in
      if has_id then remove am' instance_label else am'

  module _ {D : Type 0} where
    -- `resourceAttrs.Range`
    pub copy_entries : Bool → Bool → GoMap V → Points M D → Points M D
    unfolding apply_to_metric_attributes copy_attribute skipped
    copy_entries has_name has_id [] ps = ps
    copy_entries has_name has_id ((key, v) ∷ rest) ps = copy_entries has_name has_id rest (
        if skipped has_name has_id key
        then ps
        else apply_to_metric_attributes (copy_attribute key v) ps)

    -- One metric of a resource.
    pub process_points : M → Points M D → Points M D
    unfolding copy_entries remove_labels
    process_points r ps =
        let has_name = has r attribute_service_name in
        let has_id = has r attribute_service_instance_id in
        let copied = copy_entries has_name has_id (entries r) ps in
        if has_name || has_id
        then apply_to_metric_attributes (remove_labels has_name has_id) copied
        else copied

    pub process_list : M → List (Metric M D) → List (Metric M D)
    unfolding process_points
    process_list r [] = []
    process_list r (m ∷ ms) = record m { points = process_points r m.points } ∷ process_list r ms

    pub process_scopes : M → List (ScopeMetrics M D) → List (ScopeMetrics M D)
    unfolding process_list
    process_scopes r [] = []
    process_scopes r (s ∷ ss) =
        record s { metrics = process_list r s.metrics } ∷ process_scopes r ss

    -- ProcessMetrics, which never returns an error.
    pub process_metrics : Metrics M D → Metrics M D
    unfolding process_scopes
    process_metrics [] = []
    process_metrics (rm ∷ rms) =
        record rm { scopes = process_scopes rm.resource rm.scopes } ∷ process_metrics rms
