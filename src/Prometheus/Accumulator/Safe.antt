-- ===== src/Prometheus/Accumulator/Safe.antt =====
-- The loops over data points on a registry that holds what its signatures say.
use hypertrace_collector.Prelude.{
  ℕ, ◌+◌, ◌≡◌, refl, ap, sym, ◌∙◌, Bool, true, false, Option, none, some, List, [], ◌∷◌, ◌++◌, Str,
  if◌then◌else◌,
}
use hypertrace_collector.Prelude.All.{All}
use hypertrace_collector.Prelude.GoMap.{
  lookup, Entries, Entries-lookup, Entries-insert, Entries-erase,
}
use hypertrace_collector.Pdata.Attributes.{AttributeMap}
use hypertrace_collector.Pdata.Metrics.{
  NumberPoint, SummaryPoint, Points, gauge, sum, summary, Temporality, cumulative,
}
use hypertrace_collector.Prometheus.Signature.{
  MetricType, gauge_type, sum_type, summary_type, type_of, timeseries_signature,
}
use hypertrace_collector.Prometheus.Histogram.{Float, before}
use hypertrace_collector.Prometheus.LastValues.{
  Accumulated, Registry, Step, panic, stop, skip, stored, each_point, to_cumulative, gauge_point,
  sum_point, summary_point,
}
use hypertrace_collector.Prometheus.Accumulator.{
  Source, signature, store, gauge_step, sum_step, summary_step,
}
use hypertrace_collector.Prometheus.Accumulator.Kept.{
  TypeNames, before_star, Single, one_gauge, one_sum, one_summary, gauge_point-Single,
  sum_point-Single, summary_point-Single,
}

-- A round that does not panic, and leaves the registry as `P` says.
abbrev pub Leaves : {R : Type 0} → (R → Type 0) → Step R → Type 0
Leaves P panic = ⊥
Leaves P (stop r) = P r
Leaves P skip = Unit
Leaves P (stored r) = P r

-- A loop that does not panic.
abbrev pub Ends : {R : Type 0} → (R → Type 0) → Option (R × ℕ) → Type 0
Ends P none = ⊥
Ends P (some (r, n)) = P r

pub each_point-Ends :
    {A R : Type 0} (P : R → Type 0) (Q : A → Type 0) (step : R → A → Step R)
    → ((r : R) (a : A) → P r → Q a → Leaves P (step r a))
    → (r : R) (n : ℕ) (as_ : List A) → P r
    → All Q as_
    → Ends P (each_point step r n as_)
unfolding each_point
each_point-Ends P Q step safe r n [] p q = p
each_point-Ends {A} {R} P Q step safe r n (a ∷ rest) p (q, qs) =
    go (step r a) refl (λ s m h. each_point-Ends P Q step safe s m rest h qs)
  where
    go :
        (x : Step R)
        → step r a ≡ x
        → ((s : R) (m : ℕ) → P s → Ends P (each_point step s m rest))
        → Ends P (each_point step r n (a ∷ rest))
    go panic e ih = absurd (rw e at (safe r a p q))
    go (stop s) e ih = rw (e, each_point) (rw e at (safe r a p q))
    go skip e ih = rw (e, each_point) (ih r n p)
    go (stored s) e ih = rw (e, each_point) (ih s (n + 1) (rw e at (safe r a p q)))

-- A round that skips an old point and stores another.
pub newer-Leaves :
    {R : Type 0} (P : R → Type 0) (old : Bool) (r : R)
    → P r
    → Leaves P (if old then skip else stored r)
newer-Leaves P true r h = tt
newer-Leaves P false r h = h

-- A round that ends the loop, stores the first point of a signature, or updates the point that is found,
-- which `point` reads.
pub round-Leaves :
    {R A Q : Type 0} (P : R → Type 0) (ends : Bool) (found : Option A) (point : A → Option Q)
    (erased first : R) (update : Q → Step R)
    → P erased
    → P first
    → ((v : A) → found ≡ some v → (q : Q) × (point v ≡ some q))
    → ((q : Q) → Leaves P (update q))
    → Leaves P (
        if ends then stop erased else elim found [
          | none ↦ stored first
          | some v ↦ elim (point v) [ none ↦ panic | some q ↦ update q ]
        ])
round-Leaves P true found point erased first update e f read u = e
round-Leaves P false none point erased first update e f read u = f
round-Leaves P false (some v) point erased first update e f read u =
    let (q, g) = read v refl in rw g (u q)

module _ {M V D : Type 0} (attrs : AttributeMap M V) (type_string : MetricType → Str)
    (names : TypeNames type_string) (float : Float D) where
  -- The signature begins with the type of the value, which has one data point.
  abbrev pub Fits : Str → Accumulated M D → Type 0
  Fits k v =
      Single v.value.points × (rest : Str) × (k ≡ type_string (type_of v.value.points) ++ 42 ∷ rest)

  -- Every value of the registry fits its signature.
  abbrev pub Kept : Registry M D → Type 0
  Kept reg = Entries Fits reg

  module _ (s : Source M D) where
    signature-begins :
        (a : M)
        → (rest : Str) × (signature attrs type_string float s a
            ≡ type_string (type_of s.metric.points) ++ 42 ∷ rest)
    unfolding timeseries_signature
    signature-begins a = (_, refl)

    pub store-Kept :
        (a : M) (ps : Points M D) (reg : Registry M D)
        → Single ps
        → type_of ps ≡ type_of s.metric.points
        → Kept reg
        → Kept (store attrs type_string float s (signature attrs type_string float s a) ps reg)
    unfolding store
    store-Kept a ps reg single same h =
        let (rest, e) = signature-begins a in
        Entries-insert Fits _ _ reg
          (single, rest, e ∙ ap (λ t. type_string t ++ 42 ∷ rest) (sym same)) h

    -- What is stored under the signature of a point has the type of the point's metric.
    pub found-type :
        (a : M) (v : Accumulated M D) (reg : Registry M D)
        → Kept reg
        → lookup (signature attrs type_string float s a) reg ≡ some v
        → Single v.value.points × (type_of v.value.points ≡ type_of s.metric.points)
    found-type a v reg h l =
        let (single, rest, e) = Entries-lookup Fits _ v reg h l in
        let (rest', e') = signature-begins a in
        (
          single,
          names.distinct _ _
              (before_star _ _ rest rest' (names.no_star _) (names.no_star _) (sym e ∙ e')),
        )

    -- The value that is found under the signature of a point, and its one data point.
    found-point :
        {Q : Type 0} (point : Points M D → Option Q) (t : MetricType)
        → type_of s.metric.points ≡ t
        → ((ps : Points M D) → Single ps → type_of ps ≡ t → (q : Q) × (point ps ≡ some q))
        → (a : M) (reg : Registry M D) → Kept reg
        → (v : Accumulated M D) → lookup (signature attrs type_string float s a) reg ≡ some v
        → (q : Q) × (point v.value.points ≡ some q)
    found-point point t ty single a reg h v l =
        let (one, same) = found-type a v reg h l in single v.value.points one (same ∙ ty)

    pub gauge_step-Leaves :
        type_of s.metric.points ≡ gauge_type
        → (reg : Registry M D) (p : NumberPoint M D) → Kept reg
        → Leaves Kept (gauge_step attrs type_string float s reg p)
    unfolding gauge_step
    gauge_step-Leaves ty reg p h =
        let after = store-Kept p.attributes (gauge (p ∷ [])) reg (one_gauge p) (sym ty) h in
        round-Leaves Kept p.no_recorded_value
          (lookup (signature attrs type_string float s p.attributes) reg)
          (λ v. gauge_point v.value.points) _ _ _ (Entries-erase Fits _ reg h) after
          (found-point gauge_point gauge_type ty gauge_point-Single p.attributes reg h)
          (λ q. newer-Leaves Kept (before p.timestamp q.timestamp) _ after)

    pub summary_step-Leaves :
        type_of s.metric.points ≡ summary_type
        → (reg : Registry M D) (p : SummaryPoint M D) → Kept reg
        → Leaves Kept (summary_step attrs type_string float s reg p)
    unfolding summary_step
    summary_step-Leaves ty reg p h =
        let after = store-Kept p.attributes (summary (p ∷ [])) reg (one_summary p) (sym ty) h in
        round-Leaves Kept p.no_recorded_value
          (lookup (signature attrs type_string float s p.attributes) reg)
          (λ v. summary_point v.value.points) _ _ _ (Entries-erase Fits _ reg h) after
          (found-point summary_point summary_type ty summary_point-Single p.attributes reg h)
          (λ q. newer-Leaves Kept (before p.timestamp q.timestamp) _ after)

    pub sum_step-Leaves :
        type_of s.metric.points ≡ sum_type
        → (temporality : Temporality) (monotonic : Bool) (reg : Registry M D) (p : NumberPoint M D)
        → Kept reg
        → Leaves Kept (sum_step attrs type_string float s temporality monotonic reg p)
    unfolding sum_step
    sum_step-Leaves ty temporality monotonic reg p h =
        let after = λ (q : NumberPoint M D).
          store-Kept p.attributes (sum cumulative monotonic (q ∷ [])) reg
            (one_sum cumulative monotonic q) (sym ty) h in
        round-Leaves Kept p.no_recorded_value
          (lookup (signature attrs type_string float s p.attributes) reg)
          (λ v. sum_point v.value.points) _ _ _ (Entries-erase Fits _ reg h) (after p)
          (found-point sum_point sum_type ty sum_point-Single p.attributes reg h)
          (λ q.
            newer-Leaves Kept (before p.timestamp q.timestamp) _
              (after (to_cumulative float temporality q p)))
