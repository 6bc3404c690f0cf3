-- ===== src/Prometheus/Accumulator/Kept.antt =====
-- What the registry of the accumulator holds: under each signature a metric of the type that the
-- signature begins with, with one data point. So no loop over data points finds a value of another
-- type, which would be a panic.
use hypertrace_collector.Prelude.{
  ◌+◌, ◌≡◌, refl, Bool, false, some, [], ◌∷◌, ◌++◌, Str, length, ◌==◌, arith,
}
use hypertrace_collector.Prelude.All.{All}
use hypertrace_collector.Pdata.Metrics.{
  HistogramPoint, NumberPoint, SummaryPoint, Points, gauge, sum, histogram, summary, Temporality,
}
use hypertrace_collector.Prometheus.Signature.{
  MetricType, gauge_type, sum_type, histogram_type, summary_type, type_of,
}
use hypertrace_collector.Prometheus.LastValues.{
  gauge_point, sum_point, histogram_point, summary_point,
}

-- pmetric.MetricType.String() gives different names to different types, and no name has a "*" in it.
pub record TypeNames (type_string : MetricType → Str) : Type 0 where
  pub distinct : (a b : MetricType) → type_string a ≡ type_string b → a ≡ b
  pub no_star : (a : MetricType) → All (λ c. c == 42 ≡ false) (type_string a)

-- A name without a "*" is what stands in front of the first "*".
pub before_star :
    (s t x y : Str)
    → All (λ c. c == 42 ≡ false) s
    → All (λ c. c == 42 ≡ false) t
    → s ++ 42 ∷ x ≡ t ++ 42 ∷ y
    → s ≡ t
before_star [] [] x y h k e = refl
before_star [] (d ∷ t) x y h (n, k) e = absurd (ground (arith, n, e))
before_star (c ∷ s) [] x y (n, h) k e = absurd (ground (arith, n, e))
before_star (c ∷ s) (d ∷ t) x y (n, h) (m, k) e =
    let heads : c ≡ d = cc in
    let tails : s ++ 42 ∷ x ≡ t ++ 42 ∷ y = cc in let same = before_star s t x y h k tails in cc

-- A histogram point has one bucket more than it has bounds.
abbrev pub WellFormed : {M D : Type 0} → HistogramPoint M D → Type 0
WellFormed p = length p.bucket_counts ≡ length p.explicit_bounds + 1

-- A metric with one data point, of a type that the accumulator stores.
pub data Single {M D : Type 0} : Points M D → Type 0 where
  one_gauge : (p : NumberPoint M D) → Single (gauge (p ∷ []))
  one_sum : (t : Temporality) (m : Bool) (p : NumberPoint M D) → Single (sum t m (p ∷ []))
  one_histogram :
      (t : Temporality) (p : HistogramPoint M D) → WellFormed p → Single (histogram t (p ∷ []))
  one_summary : (p : SummaryPoint M D) → Single (summary (p ∷ []))

module _ {M D : Type 0} where
  pub gauge_point-Single :
      (ps : Points M D)
      → Single ps
      → type_of ps ≡ gauge_type
      → (q : NumberPoint M D) × (gauge_point ps ≡ some q)
  gauge_point-Single _ (one_gauge p) e = (p, refl)
  gauge_point-Single _ (one_sum t m p) e = cc
  gauge_point-Single _ (one_histogram t p h) e = cc
  gauge_point-Single _ (one_summary p) e = cc

  pub sum_point-Single :
      (ps : Points M D)
      → Single ps
      → type_of ps ≡ sum_type
      → (q : NumberPoint M D) × (sum_point ps ≡ some q)
  sum_point-Single _ (one_gauge p) e = cc
  sum_point-Single _ (one_sum t m p) e = (p, refl)
  sum_point-Single _ (one_histogram t p h) e = cc
  sum_point-Single _ (one_summary p) e = cc

  pub histogram_point-Single :
      (ps : Points M D)
      → Single ps
      → type_of ps ≡ histogram_type
      → (q : HistogramPoint M D) × (histogram_point ps ≡ some q) × WellFormed q
  histogram_point-Single _ (one_gauge p) e = cc
  histogram_point-Single _ (one_sum t m p) e = cc
  histogram_point-Single _ (one_histogram t p h) e = (p, refl, h)
  histogram_point-Single _ (one_summary p) e = cc

  pub summary_point-Single :
      (ps : Points M D)
      → Single ps
      → type_of ps ≡ summary_type
      → (q : SummaryPoint M D) × (summary_point ps ≡ some q)
  summary_point-Single _ (one_gauge p) e = cc
  summary_point-Single _ (one_sum t m p) e = cc
  summary_point-Single _ (one_histogram t p h) e = cc
  summary_point-Single _ (one_summary p) e = (p, refl)
