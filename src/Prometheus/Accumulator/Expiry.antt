-- ===== src/Prometheus/Accumulator/Expiry.antt =====
-- Collect: what is returned and what is kept.
use hypertrace_collector.Prelude.{
  ℕ, ◌≤◌, ◌≡◌, refl, false, Bool-cases, inl, inr, List, [], ◌∷◌, arith,
}
use hypertrace_collector.Prelude.All.{All}
use hypertrace_collector.Pdata.Metrics.{Metric}
use hypertrace_collector.Prometheus.Accumulator.{expired, collect}
use hypertrace_collector.Prometheus.LastValues.{Registry}

module _ {M D : Type 0} where
  abbrev collected : Registry M D → List (Metric M D × M)
  collected [] = []
  collected ((sig, v) ∷ reg) = (v.value, v.resource_attrs) ∷ collected reg

  -- Collect returns exactly the metrics of the values that it keeps, with their resource attributes,
  -- and no value that it keeps is expired.
  collect-kept :
      (now expiration : ℕ) (reg : Registry M D)
      → ((collect now expiration reg).1 ≡ collected (collect now expiration reg).0)
        × All (λ e. expired now expiration e.1 ≡ false) (collect now expiration reg).0
  unfolding collect
  collect-kept now expiration [] = (refl, tt)
  collect-kept now expiration ((sig, v) ∷ reg) =
      let (x, y) = collect-kept now expiration reg in
      elim (Bool-cases (expired now expiration v)) [
        | inl e ↦ rw e (x, y)
        | inr e ↦ rw e (rw x refl, (e, y))
      ]

  -- What one call of Collect returns and keeps does not depend on whether there was an earlier call.
  pub collect-collect :
      (now later expiration : ℕ) (reg : Registry M D)
      → now ≤ later
      → collect later expiration (collect now expiration reg).0 ≡ collect later expiration reg
  unfolding collect
  collect-collect now later expiration [] h = refl
  collect-collect now later expiration ((sig, v) ∷ reg) h =
      ground (arith, collect-collect now later expiration reg h)
