-- ===== src/Prometheus/Accumulator/Loops.antt =====
-- The loops of the accumulator over data points, and what ends them.
use hypertrace_collector.Prelude.{ℕ, ◌+◌, ◌≡◌, refl, true, some, List, [], ◌∷◌, ◌++◌, Str, arith}
use hypertrace_collector.Prelude.GoMap.{erase}
use hypertrace_collector.Pdata.Attributes.{AttributeMap}
use hypertrace_collector.Pdata.Metrics.{NumberPoint, gauge}
use hypertrace_collector.Prometheus.Signature.{MetricType}
use hypertrace_collector.Prometheus.Histogram.{Float}
use hypertrace_collector.Prometheus.Accumulator.{Source, signature, gauge_step, add_points}
use hypertrace_collector.Prometheus.LastValues.{
  Registry, Step, panic, stop, skip, stored, each_point,
}

module _ {P R : Type 0} (step : R → P → Step R) where
  -- A data point `p` at which every round ends the loop, such as one without a recorded value.
  abbrev Ends : P → Type 0
  Ends p = (reg : R) → (reg' : R) × (step reg p ≡ stop reg')

  -- A loop that comes to such a point gives the same result without the points that follow it.
  each_point-ended :
      (ps qs : List P) (p : P) (reg : R) (n : ℕ)
      → Ends p
      → each_point step reg n (ps ++ p ∷ qs) ≡ each_point step reg n (ps ++ p ∷ [])
  unfolding each_point
  each_point-ended [] qs p reg n h = let (reg', e) = h reg in rw (e, each_point) refl
  each_point-ended (q ∷ ps) qs p reg n h =
      go (step reg q) refl (λ r m. each_point-ended ps qs p r m h)
    where
      go :
          (s : Step R)
          → step reg q ≡ s
          → ((r : R) (m : ℕ)
              → each_point step r m (ps ++ p ∷ qs) ≡ each_point step r m (ps ++ p ∷ []))
          → each_point step reg n (q ∷ (ps ++ p ∷ qs)) ≡ each_point step reg n (q ∷ (ps ++ p ∷ []))
      go panic e ih = rw (e, each_point) refl
      go (stop r) e ih = rw (e, each_point) refl
      go skip e ih = rw (e, each_point) (ih reg n)
      go (stored r) e ih = rw (e, each_point) (ih r (n + 1))

  -- The count of such a loop is 0.
  each_point-ended_count :
      (ps qs : List P) (p : P) (reg reg' : R) (n k : ℕ)
      → Ends p
      → each_point step reg n (ps ++ p ∷ qs) ≡ some (reg', k)
      → k ≡ 0
  unfolding each_point
  each_point-ended_count [] qs p reg reg' n k ends h =
      let (r, e) = ends reg in ground (arith, rw (e, each_point) at h)
  each_point-ended_count (q ∷ ps) qs p reg reg' n k ends h =
      go (step reg q) refl (λ r m. each_point-ended_count ps qs p r reg' m k ends)
    where
      go :
          (s : Step R)
          → step reg q ≡ s
          → ((r : R) (m : ℕ) → each_point step r m (ps ++ p ∷ qs) ≡ some (reg', k) → k ≡ 0)
          → k ≡ 0
      go panic e ih = cc (rw (e, each_point) at h)
      go (stop r) e ih = ground (arith, rw (e, each_point) at h)
      go skip e ih = ih reg n (rw (e, each_point) at h)
      go (stored r) e ih = ih r (n + 1) (rw (e, each_point) at h)

module _ {M V D : Type 0} (attrs : AttributeMap M V) (type_string : MetricType → Str)
    (float : Float D) (s : Source M D) where
  gauge_step-Ends :
      (p : NumberPoint M D)
      → p.no_recorded_value ≡ true
      → Ends (gauge_step attrs type_string float s) p
  unfolding gauge_step
  gauge_step-Ends p h reg =
      (erase (signature attrs type_string float s p.attributes) reg, rw h refl)

  -- Of the data points of a gauge, those that follow a point without a recorded value are dropped, and
  -- the count that is returned is 0, whatever was stored before.
  pub add_points-stale :
      (ps qs : List (NumberPoint M D)) (p : NumberPoint M D) (reg : Registry M D)
      → p.no_recorded_value ≡ true
      → (add_points attrs type_string float s (gauge (ps ++ p ∷ qs)) reg
          ≡ add_points attrs type_string float s (gauge (ps ++ p ∷ [])) reg)
        × ((reg' : Registry M D) (k : ℕ)
            → add_points attrs type_string float s (gauge (ps ++ p ∷ qs)) reg ≡ some (reg', k)
            → k ≡ 0)
  unfolding add_points
  add_points-stale ps qs p reg h = (
    each_point-ended (gauge_step attrs type_string float s) ps qs p reg 0 (gauge_step-Ends p h),
    λ reg' k e.
        each_point-ended_count (gauge_step attrs type_string float s) ps qs p reg reg' 0 k
          (gauge_step-Ends p h) e,
  )
