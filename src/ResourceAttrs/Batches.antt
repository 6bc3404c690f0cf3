-- ===== src/ResourceAttrs/Batches.antt =====
-- What ProcessMetrics does to the attribute maps of a batch, by what `merged` does to one.
use hypertrace_collector.Prelude.{
  ◌≡◌, refl, ◌∙◌, ap, ap₂, Bool, true, false, ◌||◌, List, [], ◌∷◌, ◌++◌, map, map-append, sym,
  if◌then◌else◌,
}
use hypertrace_collector.Prelude.GoMap.{GoMap}
use hypertrace_collector.Pdata.Attributes.{
  AttributeMap, is_some, attribute_service_name, attribute_service_instance_id,
}
use hypertrace_collector.Pdata.Metrics.{
  Points, empty, gauge, sum, histogram, exponential_histogram, summary, Metric, ScopeMetrics,
  Metrics, point_maps, metric_maps, scope_maps, all_maps,
}
use hypertrace_collector.ResourceAttrs.{
  apply_to_metric_attributes, copy_attribute, skipped, remove_labels, copy_entries, process_points,
  process_list, process_scopes, process_metrics,
}
use hypertrace_collector.ResourceAttrs.Merge.{copy_map, merged}

module _ {A M : Type 0} (f : M → M) (maps_of : A → M) (g : A → A) where
  map-map_update :
      ((a : A) → maps_of (g a) ≡ f (maps_of a))
      → (xs : List A) → map maps_of (map g xs) ≡ map f (map maps_of xs)
  map-map_update h [] = refl
  map-map_update h (x ∷ xs) = ap₂ ◌∷◌ (h x) (map-map_update h xs)

map-map :
    {A B C : Type 0} (g : B → C) (f : A → B) (xs : List A)
    → map g (map f xs) ≡ map (λ x. g (f x)) xs
map-map g f [] = refl
map-map g f (x ∷ xs) = rw (map-map g f xs)

map-id : {A : Type 0} (xs : List A) → map (λ x. x) xs ≡ xs
map-id [] = refl
map-id (x ∷ xs) = rw (map-id xs)

module _ {M D : Type 0} where
  point_maps-apply :
      (f : M → M) (ps : Points M D)
      → point_maps (apply_to_metric_attributes f ps) ≡ map f (point_maps ps)
  unfolding apply_to_metric_attributes
  point_maps-apply f empty = refl
  point_maps-apply f (gauge ps) = map-map_update f _ _ (λ p. refl) ps
  point_maps-apply f (sum t m ps) = map-map_update f _ _ (λ p. refl) ps
  point_maps-apply f (histogram t ps) = map-map_update f _ _ (λ p. refl) ps
  point_maps-apply f (exponential_histogram ps) = map-map_update f _ _ (λ p. refl) ps
  point_maps-apply f (summary ps) = map-map_update f _ _ (λ p. refl) ps

  point_maps-if :
      (c : Bool) (f : M → M) (ps : Points M D)
      → point_maps (if c then apply_to_metric_attributes f ps else ps)
        ≡ map (λ m. if c then f m else m) (point_maps ps)
  point_maps-if true f ps = point_maps-apply f ps
  point_maps-if false f ps = sym (map-id (point_maps ps))

  point_maps-unless :
      (c : Bool) (f : M → M) (ps : Points M D)
      → point_maps (if c then ps else apply_to_metric_attributes f ps)
        ≡ map (λ m. if c then m else f m) (point_maps ps)
  point_maps-unless true f ps = sym (map-id (point_maps ps))
  point_maps-unless false f ps = point_maps-apply f ps

module _ {M V D : Type 0} (attrs : AttributeMap M V) where
  open attrs use {get, entries}

  point_maps-copy :
      (a b : Bool) (es : GoMap V) (ps : Points M D)
      → point_maps (copy_entries attrs a b es ps) ≡ map (copy_map attrs a b es) (point_maps ps)
  unfolding copy_entries copy_map
  point_maps-copy a b [] ps = sym (map-id (point_maps ps))
  point_maps-copy a b ((key, v) ∷ rest) ps =
      point_maps-copy a b rest
        (if skipped a b key then ps else apply_to_metric_attributes (copy_attribute attrs key v) ps)
      ∙ ap (map (copy_map attrs a b rest))
          (point_maps-unless (skipped a b key) (copy_attribute attrs key v) ps)
      ∙ map-map _ _ (point_maps ps)

  point_maps-process :
      (r : M) (ps : Points M D)
      → point_maps (process_points attrs r ps) ≡ map (merged attrs r) (point_maps ps)
  unfolding process_points merged
  point_maps-process r ps =
      let a = is_some (get r attribute_service_name) in
      let b = is_some (get r attribute_service_instance_id) in
      point_maps-if (a || b) (remove_labels attrs a b) (copy_entries attrs a b (entries r) ps)
      ∙ ap (map (λ m. if a || b then remove_labels attrs a b m else m))
          (point_maps-copy a b (entries r) ps)
      ∙ map-map _ _ (point_maps ps)

  metric_maps-process :
      (r : M) (ms : List (Metric M D))
      → metric_maps (process_list attrs r ms) ≡ map (merged attrs r) (metric_maps ms)
  unfolding process_list
  metric_maps-process r [] = refl
  metric_maps-process r (m ∷ ms) =
      simp (point_maps-process r m.points, metric_maps-process r ms, map-append)

  scope_maps-process :
      (r : M) (ss : List (ScopeMetrics M D))
      → scope_maps (process_scopes attrs r ss) ≡ map (merged attrs r) (scope_maps ss)
  unfolding process_scopes
  scope_maps-process r [] = refl
  scope_maps-process r (s ∷ ss) =
      simp (metric_maps-process r s.metrics, scope_maps-process r ss, map-append)

  -- What a batch's attribute maps become.
  abbrev pub expected_maps : Metrics M D → List M
  expected_maps [] = []
  expected_maps (r ∷ rs) =
      r.resource ∷ (map (merged attrs r.resource) (scope_maps r.scopes) ++ expected_maps rs)

  -- Every resource's attributes stay as they are, and the attribute map of every data point, of a
  -- metric of any type, becomes what `merged` makes of it under its own resource.
  pub process_metrics-merges :
      (rms : Metrics M D) → all_maps (process_metrics attrs rms) ≡ expected_maps rms
  unfolding process_metrics
  process_metrics-merges [] = refl
  process_metrics-merges (r ∷ rs) =
      rw (scope_maps-process r.resource r.scopes, process_metrics-merges rs)
