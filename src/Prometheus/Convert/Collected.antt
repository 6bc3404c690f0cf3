-- ===== src/Prometheus/Convert/Collected.antt =====
-- The conversion of what the accumulator's Collect returns, and the labels of a converted metric.
use hypertrace_collector.Prelude.{
  ℕ, ◌≡◌, refl, ◌⊎◌, inl, inr, some, List, [], ◌∷◌, Str, Bool-cases, arith,
}
use hypertrace_collector.Prelude.All.{All}
use hypertrace_collector.Pdata.Attributes.{AttributeMap}
use hypertrace_collector.Pdata.Metrics.{Points, Metric}
use hypertrace_collector.Prometheus.Signature.{MetricType}
use hypertrace_collector.Prometheus.Histogram.{Float}
use hypertrace_collector.Prometheus.LastValues.{Registry}
use hypertrace_collector.Prometheus.Accumulator.{collect, expired}
use hypertrace_collector.Prometheus.Accumulator.Kept.{
  TypeNames, Single, one_gauge, one_sum, one_histogram, one_summary,
}
use hypertrace_collector.Prometheus.Accumulator.Safe.{Kept}
use hypertrace_collector.Prometheus.Convert.{
  Collector, Accessors, Translator, Desc, ValueType, PromExemplar, Client, ConvertError,
  unknown_metric_type, client_error,
}
use hypertrace_collector.Prometheus.Convert.ByType.{
  finished, has_exemplars, with_exemplars, convert_points, convert_gauge, convert_sum,
  convert_summary, convert_double_histogram, convert_metric,
}
use hypertrace_collector.Prometheus.Convert.Total.{bucket_points-total}

-- The error is one that a call of the client library returned.
pub data Refused {D P E : Type 0} (client : Client D P E) (e : E) : Type 0 where
  metric_refused :
      (desc : Desc) (t : ValueType) (value : D) (labels : List Str)
      → client.new_const_metric desc t value labels ≡ inl e
      → Refused client e
  summary_refused :
      (desc : Desc) (count : ℕ) (sum : D) (quantiles : List (D × D)) (labels : List Str)
      → client.new_const_summary desc count sum quantiles labels ≡ inl e
      → Refused client e
  histogram_refused :
      (desc : Desc) (count : ℕ) (sum : D) (buckets : List (D × ℕ)) (labels : List Str)
      → client.new_const_histogram desc count sum buckets labels ≡ inl e
      → Refused client e
  exemplars_refused :
      (metric : P) (exemplars : List (PromExemplar D))
      → client.new_metric_with_exemplars metric exemplars ≡ inl e
      → Refused client e

module _ {D P E : Type 0} (client : Client D P E) where
  -- A conversion that made a metric, or for which the client library returned an error.
  abbrev pub Made : ConvertError E ⊎ P → Type 0
  Made (inr metric) = Unit
  Made (inl (client_error e)) = Refused client e
  Made (inl unknown_metric_type) = ⊥

  abbrev Accepts : E ⊎ P → Type 0
  Accepts (inr metric) = Unit
  Accepts (inl e) = Refused client e

  finished-Made : (c : Collector) (t : ℕ) (x : E ⊎ P) → Accepts x → Made (finished client c t x)
  unfolding finished
  finished-Made c t (inl e) h = h
  finished-Made c t (inr m) h = tt

  exemplars-Accepts :
      (metric : P) (es : List (PromExemplar D))
      → Accepts (client.new_metric_with_exemplars metric es)
  exemplars-Accepts metric es = go (client.new_metric_with_exemplars metric es) refl
    where
      go : (x : E ⊎ P) → client.new_metric_with_exemplars metric es ≡ x → Accepts x
      go (inr m) e = tt
      go (inl err) e = exemplars_refused metric es e

  with_exemplars-Accepts :
      (c : Collector) (es : List (PromExemplar D)) (x : E ⊎ P)
      → Accepts x
      → Accepts (with_exemplars client c es x)
  unfolding with_exemplars
  with_exemplars-Accepts c es (inl e) h = h
  with_exemplars-Accepts c es (inr m) h = elim (Bool-cases (has_exemplars es)) [
    | inl e ↦ rw e (exemplars-Accepts m es)
    | inr e ↦ rw e tt
  ]

  metric-Accepts :
      (desc : Desc) (t : ValueType) (value : D) (labels : List Str)
      → Accepts (client.new_const_metric desc t value labels)
  metric-Accepts desc t value labels = go (client.new_const_metric desc t value labels) refl
    where
      go : (x : E ⊎ P) → client.new_const_metric desc t value labels ≡ x → Accepts x
      go (inr m) e = tt
      go (inl err) e = metric_refused desc t value labels e

  summary-Accepts :
      (desc : Desc) (count : ℕ) (sum : D) (quantiles : List (D × D)) (labels : List Str)
      → Accepts (client.new_const_summary desc count sum quantiles labels)
  summary-Accepts desc count sum quantiles labels =
      go (client.new_const_summary desc count sum quantiles labels) refl
    where
      go : (x : E ⊎ P) → client.new_const_summary desc count sum quantiles labels ≡ x → Accepts x
      go (inr m) e = tt
      go (inl err) e = summary_refused desc count sum quantiles labels e

  histogram-Accepts :
      (desc : Desc) (count : ℕ) (sum : D) (buckets : List (D × ℕ)) (labels : List Str)
      → Accepts (client.new_const_histogram desc count sum buckets labels)
  histogram-Accepts desc count sum buckets labels =
      go (client.new_const_histogram desc count sum buckets labels) refl
    where
      go : (x : E ⊎ P) → client.new_const_histogram desc count sum buckets labels ≡ x → Accepts x
      go (inr m) e = tt
      go (inl err) e = histogram_refused desc count sum buckets labels e

module _ {M V D P E : Type 0} (attrs : AttributeMap M V) (float : Float D)
    (translator : Translator M D) (accessors : Accessors M D) (client : Client D P E)
    (c : Collector) where
  -- The conversion does not panic, and makes a metric or has an error of the client library.
  abbrev pub Converts : Metric M D → M → Type 0
  Converts metric resource =
      (x : ConvertError E ⊎ P) × (convert_metric attrs float translator accessors client c metric
          resource
        ≡ some x)
      × Made client x

  convert_points-Single :
      (metric : Metric M D) (resource : M) (ps : Points M D)
      → Single ps
      → (x : ConvertError E ⊎ P) × (convert_points attrs float translator accessors client c metric
            resource ps
          ≡ some x)
        × Made client x
  unfolding convert_points convert_gauge convert_sum convert_summary convert_double_histogram
  convert_points-Single metric resource _ (one_gauge p) =
      (_, refl, finished-Made client c _ _ (metric-Accepts client _ _ _ _))
  convert_points-Single metric resource _ (one_sum t m p) = (
    _,
    refl,
    finished-Made client c _ _
        (with_exemplars-Accepts client c _ _ (metric-Accepts client _ _ _ _)),
  )
  convert_points-Single metric resource _ (one_summary p) =
      (_, refl, finished-Made client c _ _ (summary-Accepts client _ _ _ _ _))
  convert_points-Single metric resource _ (one_histogram t p w) =
      let (ps, e) =
        bucket_points-total float p.explicit_bounds p.bucket_counts (omega (arith, w)) in
      rw (convert_points, convert_double_histogram, e)
        (
          _,
          refl,
          finished-Made client c _ _
              (with_exemplars-Accepts client c _ _ (histogram-Accepts client _ _ _ ps _)),
        )

  convert_metric-Single :
      (metric : Metric M D) (resource : M) → Single metric.points → Converts metric resource
  unfolding convert_metric
  convert_metric-Single metric resource h = convert_points-Single metric resource metric.points h

  module _ (type_string : MetricType → Str) (names : TypeNames type_string)
      (now expiration : ℕ) where
    -- Every metric that the accumulator's Collect returns, from a registry that holds what its signatures
    -- say, is converted without a panic to a metric, or the client library returns an error for it.
    pub collect-Converts :
        (reg : Registry M D)
        → Kept attrs type_string names float reg
        → All (λ mr. Converts mr.0 mr.1) (collect now expiration reg).1
    unfolding collect
    collect-Converts [] h = tt
    collect-Converts ((sig, v) ∷ reg) (h, hs) = elim (Bool-cases (expired now expiration v)) [
      | inl e ↦ rw e (collect-Converts reg hs)
      | inr e ↦ rw e (convert_metric-Single v.value v.resource_attrs h.0, collect-Converts reg hs)
    ]
