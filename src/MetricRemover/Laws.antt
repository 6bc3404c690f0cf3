-- ===== src/MetricRemover/Laws.antt =====
-- What the metric remover leaves of a batch.
use hypertrace_collector.Prelude.{
  ◌≡◌, refl, ap₂, ◌∙◌, List, [], ◌∷◌, ◌++◌, map, Str, sym, if◌then◌else◌, arith,
}
use hypertrace_collector.Pdata.Metrics.{Metric, ScopeMetrics, Metrics}
use hypertrace_collector.MetricRemover.{
  MetricSlice, MetricRemover, is_empty_type, remove_scopes, remove_resources, process_metrics,
}

module _ {M D : Type 0} where
  abbrev scope_metrics : List (ScopeMetrics M D) → List (Metric M D)
  scope_metrics [] = []
  scope_metrics (s ∷ ss) = s.metrics ++ scope_metrics ss

  -- Every metric of a batch, in order.
  abbrev pub every_metric : Metrics M D → List (Metric M D)
  every_metric [] = []
  every_metric (r ∷ rs) = scope_metrics r.scopes ++ every_metric rs

  -- The metrics that have a data type.
  abbrev pub typed : List (Metric M D) → List (Metric M D)
  typed [] = []
  typed (m ∷ ms) = let rest = typed ms in if is_empty_type m then rest else m ∷ rest

  typed-append : (xs ys : List (Metric M D)) → typed (xs ++ ys) ≡ typed xs ++ typed ys
  typed-append [] ys = refl
  typed-append (x ∷ xs) ys = ground (arith, typed-append xs ys)

  -- What of a batch is not its metrics: the resources, and the scopes of each.
  abbrev pub skeleton : Metrics M D → List (M × List Str)
  skeleton rs = map (λ r. (r.resource, map (λ s. s.scope_name) r.scopes)) rs

module _ {M D : Type 0} (slice : MetricSlice (Metric M D)) where
  remove_if_lem : (ms : List (Metric M D)) → slice.remove_if is_empty_type ms ≡ typed ms
  remove_if_lem [] = slice.remove_if-nil is_empty_type
  remove_if_lem (m ∷ ms) = slice.remove_if-cons is_empty_type m ms ∙ rw (remove_if_lem ms)

  scope_metrics-remove :
      (ss : List (ScopeMetrics M D))
      → scope_metrics (remove_scopes slice ss) ≡ typed (scope_metrics ss)
  unfolding remove_scopes
  scope_metrics-remove [] = refl
  scope_metrics-remove (s ∷ ss) =
      ap₂ ◌++◌ (remove_if_lem s.metrics) (scope_metrics-remove ss)
      ∙ sym (typed-append s.metrics (scope_metrics ss))

  every_metric-remove :
      (rs : Metrics M D) → every_metric (remove_resources slice rs) ≡ typed (every_metric rs)
  unfolding remove_resources
  every_metric-remove [] = refl
  every_metric-remove (r ∷ rs) =
      ap₂ ◌++◌ (scope_metrics-remove r.scopes) (every_metric-remove rs)
      ∙ sym (typed-append (scope_metrics r.scopes) (every_metric rs))

  scope_names-remove :
      (ss : List (ScopeMetrics M D))
      → map (λ s. s.scope_name) (remove_scopes slice ss) ≡ map (λ s. s.scope_name) ss
  unfolding remove_scopes
  scope_names-remove [] = refl
  scope_names-remove (s ∷ ss) = rw (scope_names-remove ss)

  skeleton-remove : (rs : Metrics M D) → skeleton (remove_resources slice rs) ≡ skeleton rs
  unfolding remove_resources
  skeleton-remove [] = refl
  skeleton-remove (r ∷ rs) = rw (skeleton-remove rs, scope_names-remove r.scopes)

  -- With the option set, exactly the metrics with a data type are left, in their order; without it,
  -- all metrics are. In both cases the resources and the scopes stay as they are.
  pub process_metrics_lem :
      (p : MetricRemover) (rs : Metrics M D)
      → (every_metric (process_metrics slice p rs)
          ≡ (if p.remove_none_metric_type then typed (every_metric rs) else every_metric rs))
        × (skeleton (process_metrics slice p rs) ≡ skeleton rs)
  unfolding process_metrics
  process_metrics_lem p rs = ground (arith, every_metric-remove rs, skeleton-remove rs)
