-- ===== src/Prometheus/Accumulator/Whole.antt =====
-- Accumulate of a whole batch, and what Collect returns after it.
use hypertrace_collector.Prelude.{
  ℕ, ◌+◌, ◌≡◌, refl, Bool, true, false, Option, none, some, List, [], ◌∷◌, Str,
}
use hypertrace_collector.Prelude.All.{All}
use hypertrace_collector.Pdata.Attributes.{AttributeMap}
use hypertrace_collector.Pdata.Metrics.{
  NumberPoint, Points, empty, gauge, sum, histogram, exponential_histogram, summary, Metric,
  Temporality, unspecified, delta, cumulative,
}
use hypertrace_collector.Prometheus.Signature.{MetricType, sum_type, type_of}
use hypertrace_collector.Prometheus.Histogram.{Float}
use hypertrace_collector.Prometheus.LastValues.{Registry}
use hypertrace_collector.Prometheus.Accumulator.{Source, accumulate_sum, add_points}
use hypertrace_collector.Prometheus.Accumulator.Kept.{TypeNames, WellFormed}
use hypertrace_collector.Pdata.Metrics.{ScopeMetrics, ResourceMetrics}
use hypertrace_collector.Prometheus.Accumulator.{
  add_metric, accumulate_metrics, accumulate_scopes, accumulate,
}
use hypertrace_collector.Prometheus.Accumulator.Safe.{
  Ends, each_point-Ends, Kept, gauge_step-Leaves, summary_step-Leaves, sum_step-Leaves,
}
use hypertrace_collector.Prometheus.Accumulator.Total.{WellFormedPoints, histogram_step-Leaves}

-- The metrics of a scope, of the scopes, have well-formed histogram points.
abbrev pub WellFormedMetrics : {M D : Type 0} → List (Metric M D) → Type 0
WellFormedMetrics ms = All (λ m. WellFormedPoints m.points) ms

abbrev pub WellFormedScopes : {M D : Type 0} → List (ScopeMetrics M D) → Type 0
WellFormedScopes cs = All (λ c. WellFormedMetrics c.metrics) cs

-- A predicate that holds of everything.
Any : {A : Type 0} → A → Type 0
Any x = Unit

All-Any : {A : Type 0} (xs : List A) → All (λ x. Any x) xs
unfolding Any
All-Any [] = tt
All-Any (x ∷ xs) = (tt, All-Any xs)

module _ {M V D : Type 0} (attrs : AttributeMap M V) (type_string : MetricType → Str)
    (names : TypeNames type_string) (float : Float D) where
  abbrev Safe : Option (Registry M D × ℕ) → Type 0
  Safe o = Ends (Kept attrs type_string names float) o

  accumulate_sum-Safe :
      (s : Source M D) (t : Temporality) (m : Bool) (ps : List (NumberPoint M D))
      (reg : Registry M D)
      → type_of s.metric.points ≡ sum_type
      → Kept attrs type_string names float reg
      → Safe (accumulate_sum attrs type_string float s t m ps reg)
  unfolding accumulate_sum
  accumulate_sum-Safe s unspecified m ps reg e h = h
  accumulate_sum-Safe s delta false ps reg e h = h
  accumulate_sum-Safe s delta true ps reg e h =
      each_point-Ends _ Any _
        (λ r p k u. sum_step-Leaves attrs type_string names float s e delta true r p k) reg 0 ps h
        (All-Any ps)
  accumulate_sum-Safe s cumulative m ps reg e h =
      each_point-Ends _ Any _
        (λ r p k u. sum_step-Leaves attrs type_string names float s e cumulative m r p k) reg 0 ps h
        (All-Any ps)

  add_points-Safe :
      (s : Source M D) (ps : Points M D) (reg : Registry M D)
      → type_of s.metric.points ≡ type_of ps
      → WellFormedPoints ps
      → Kept attrs type_string names float reg
      → Safe (add_points attrs type_string float s ps reg)
  unfolding add_points
  add_points-Safe s empty reg e w h = h
  add_points-Safe s (exponential_histogram ps) reg e w h = h
  add_points-Safe s (gauge ps) reg e w h =
      each_point-Ends _ Any _ (λ r p k u. gauge_step-Leaves attrs type_string names float s e r p k)
        reg 0 ps h (All-Any ps)
  add_points-Safe s (summary ps) reg e w h =
      each_point-Ends _ Any _
        (λ r p k u. summary_step-Leaves attrs type_string names float s e r p k) reg 0 ps h
        (All-Any ps)
  add_points-Safe s (sum t m ps) reg e w h = accumulate_sum-Safe s t m ps reg e h
  add_points-Safe s (histogram t ps) reg e w h =
      each_point-Ends _ (λ p. WellFormed p) _
        (λ r p k u. histogram_step-Leaves attrs type_string names float s e t r p k u) reg 0 ps h w

  module _ (resource_attrs : M) (now : ℕ) where
    accumulate_metrics-Safe :
        (scope : Str) (ms : List (Metric M D)) (reg : Registry M D) (n : ℕ)
        → WellFormedMetrics ms
        → Kept attrs type_string names float reg
        → Safe (accumulate_metrics attrs type_string float resource_attrs now scope ms reg n)
    unfolding accumulate_metrics
    accumulate_metrics-Safe scope [] reg n w h = h
    accumulate_metrics-Safe scope (m ∷ ms) reg n (w, ws) h =
        go (add_metric attrs type_string float resource_attrs now scope m reg) refl
          (unfold add_metric in add_points-Safe _ m.points reg refl w h)
          (λ r k i. accumulate_metrics-Safe scope ms r k ws i)
      where
        go :
            (o : Option (Registry M D × ℕ))
            → add_metric attrs type_string float resource_attrs now scope m reg ≡ o
            → Safe o
            → ((r : Registry M D) (k : ℕ)
                → Kept attrs type_string names float r
                → Safe (accumulate_metrics attrs type_string float resource_attrs now scope ms r k))
            → Safe
                (accumulate_metrics attrs type_string float resource_attrs now scope (m ∷ ms) reg n)
        go none e f ih = absurd f
        go (some (r, k)) e f ih = rw (e, accumulate_metrics) (ih r (n + k) f)

    accumulate_scopes-Safe :
        (cs : List (ScopeMetrics M D)) (reg : Registry M D) (n : ℕ)
        → WellFormedScopes cs
        → Kept attrs type_string names float reg
        → Safe (accumulate_scopes attrs type_string float resource_attrs now cs reg n)
    unfolding accumulate_scopes
    accumulate_scopes-Safe [] reg n w h = h
    accumulate_scopes-Safe (c ∷ cs) reg n (w, ws) h =
        go
          (accumulate_metrics attrs type_string float resource_attrs now c.scope_name c.metrics reg
            n)
          refl (accumulate_metrics-Safe c.scope_name c.metrics reg n w h)
          (λ r k i. accumulate_scopes-Safe cs r k ws i)
      where
        go :
            (o : Option (Registry M D × ℕ))
            → accumulate_metrics attrs type_string float resource_attrs now c.scope_name c.metrics
                reg n
              ≡ o
            → Safe o
            → ((r : Registry M D) (k : ℕ)
                → Kept attrs type_string names float r
                → Safe (accumulate_scopes attrs type_string float resource_attrs now cs r k))
            → Safe (accumulate_scopes attrs type_string float resource_attrs now (c ∷ cs) reg n)
        go none e f ih = absurd f
        go (some (r, k)) e f ih = rw (e, accumulate_scopes) (ih r k f)

  -- Accumulate of a batch whose histogram points have one bucket more than bounds does not panic, and
  -- leaves under every signature one data point of the type that the signature begins with, if the
  -- registry held that before.
  pub accumulate-Kept :
      (now : ℕ) (rm : ResourceMetrics M D) (reg : Registry M D)
      → WellFormedScopes rm.scopes
      → Kept attrs type_string names float reg
      → Ends (Kept attrs type_string names float) (accumulate attrs type_string float now rm reg)
  unfolding accumulate
  accumulate-Kept now rm reg w h = accumulate_scopes-Safe rm.resource now rm.scopes reg 0 w h
