-- ===== src/TenantId/Process/Stamps.antt =====
-- What the loops of the tenant id processor do to the attribute maps of a batch.
use hypertrace_collector.Prelude.{
  ◌≡◌, refl, ap₂, false, some, List, [], ◌∷◌, map, Str, str_eq, str_eq_refl, map-append,
}
use hypertrace_collector.Prelude.All.{All}
use hypertrace_collector.Pdata.Attributes.{AttributeMap}
use hypertrace_collector.Pdata.Metrics.{
  Points, empty, gauge, sum, histogram, exponential_histogram, summary, Metric, ScopeMetrics,
  Metrics, point_maps, metric_maps, scope_maps, all_maps,
}
use hypertrace_collector.Pdata.Traces.{Traces, resource_maps}
use hypertrace_collector.TenantId.Process.{
  add_to_points, add_to_metrics, add_to_scopes, add_tenant_id_to_metrics, add_tenant_id_to_spans,
}

module _ {A M : Type 0} (f : A → A) (maps_of : A → M) (g : M → M) where
  -- An update of one field, seen through that field.
  map-map_field :
      ((a : A) → maps_of (f a) ≡ g (maps_of a))
      → (xs : List A) → map maps_of (map f xs) ≡ map g (map maps_of xs)
  map-map_field h [] = refl
  map-map_field h (x ∷ xs) = ap₂ ◌∷◌ (h x) (map-map_field h xs)

module _ {M V D : Type 0} (attrs : AttributeMap M V) (key tenant : Str) where
  open attrs use {put_str}

  point_maps-add :
      (ps : Points M D)
      → point_maps (add_to_points attrs key tenant ps)
        ≡ map (λ m. put_str m key tenant) (point_maps ps)
  unfolding add_to_points
  point_maps-add empty = refl
  point_maps-add (gauge ps) = map-map_field _ _ _ (λ p. refl) ps
  point_maps-add (sum t m ps) = map-map_field _ _ _ (λ p. refl) ps
  point_maps-add (histogram t ps) = map-map_field _ _ _ (λ p. refl) ps
  point_maps-add (exponential_histogram ps) = map-map_field _ _ _ (λ p. refl) ps
  point_maps-add (summary ps) = map-map_field _ _ _ (λ p. refl) ps

  metric_maps-add :
      (ms : List (Metric M D))
      → metric_maps (add_to_metrics attrs key tenant ms)
        ≡ map (λ m. put_str m key tenant) (metric_maps ms)
  unfolding add_to_metrics
  metric_maps-add [] = refl
  metric_maps-add (m ∷ ms) = simp (point_maps-add m.points, metric_maps-add ms, map-append)

  scope_maps-add :
      (ss : List (ScopeMetrics M D))
      → scope_maps (add_to_scopes attrs key tenant ss)
        ≡ map (λ m. put_str m key tenant) (scope_maps ss)
  unfolding add_to_scopes
  scope_maps-add [] = refl
  scope_maps-add (s ∷ ss) = simp (metric_maps-add s.metrics, scope_maps-add ss, map-append)

  pub all_maps-add :
      (rms : Metrics M D)
      → all_maps (add_tenant_id_to_metrics attrs key tenant rms)
        ≡ map (λ m. put_str m key tenant) (all_maps rms)
  unfolding add_tenant_id_to_metrics
  all_maps-add [] = refl
  all_maps-add (r ∷ rms) = simp (scope_maps-add r.scopes, all_maps-add rms, map-append)

module _ {M V : Type 0} (attrs : AttributeMap M V) (key tenant : Str) where
  open attrs use {put_str}

  pub resource_maps-add :
      (rss : Traces M)
      → resource_maps (add_tenant_id_to_spans attrs key tenant rss)
        ≡ map (λ m. put_str m key tenant) (resource_maps rss)
  unfolding add_tenant_id_to_spans
  resource_maps-add [] = refl
  resource_maps-add (rs ∷ rss) = rw (resource_maps-add rss)

  -- Of maps that were all stamped: each shows the tenant at the key,
  pub All-stamped :
      (ms : List M)
      → All
          (λ m. attrs.get m key ≡ some (attrs.str_value tenant))
          (map (λ m. put_str m key tenant) ms)
  All-stamped [] = tt
  All-stamped (m ∷ ms) = (rw (attrs.get-put_str, str_eq_refl), All-stamped ms)

  -- and at every other key what it showed before.
  pub other_keys-stamped :
      (j : Str) (ms : List M)
      → str_eq key j ≡ false
      → map (λ m. attrs.get m j) (map (λ m. put_str m key tenant) ms) ≡ map (λ m. attrs.get m j) ms
  other_keys-stamped j [] h = refl
  other_keys-stamped j (m ∷ ms) h = ap₂ ◌∷◌ (rw (attrs.get-put_str, h)) (other_keys-stamped j ms h)
