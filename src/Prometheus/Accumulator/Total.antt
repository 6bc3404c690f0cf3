-- ===== src/Prometheus/Accumulator/Total.antt =====
-- Histograms that are merged, and the whole of Accumulate, on a registry that holds what its signatures
-- say.
use hypertrace_collector.Prelude.{
  ℕ, ◌≡◌, refl, sym, ◌∙◌, inl, inr, Bool, true, false, Option, none, some, List, [], ◌∷◌, Str,
  length, Bool-cases, arith, ◌==◌,
}
use hypertrace_collector.Prelude.All.{All}
use hypertrace_collector.Prelude.GoMap.{lookup, Entries-erase}
use hypertrace_collector.Pdata.Attributes.{AttributeMap}
use hypertrace_collector.Pdata.Metrics.{
  HistogramPoint, Points, histogram, Temporality, unspecified, delta, cumulative,
}
use hypertrace_collector.Prometheus.Signature.{MetricType, histogram_type, type_of}
use hypertrace_collector.Prometheus.Histogram.{Float, before, accumulate_histogram_values}
use hypertrace_collector.Prometheus.LastValues.{Accumulated, Registry}
use hypertrace_collector.Prometheus.Accumulator.{
  Source, signature, store, histogram_step, histogram_update,
}
use hypertrace_collector.Prometheus.Accumulator.Kept.{
  TypeNames, WellFormed, one_histogram, histogram_point-Single,
}
use hypertrace_collector.Prometheus.Histogram.{add_counts, same_bounds, merge_points}
use hypertrace_collector.Prometheus.Accumulator.Buckets.{add_counts_iff}
use hypertrace_collector.Prometheus.Accumulator.Safe.{Leaves, Fits, Kept, store-Kept, found-type}

same_bounds-length :
    {D : Type 0} (float : Float D) (xs ys : List D)
    → same_bounds float xs ys ≡ true
    → length xs ≡ length ys
unfolding same_bounds
same_bounds-length float [] [] h = refl
same_bounds-length float [] (y ∷ ys) h = cc
same_bounds-length float (x ∷ xs) [] h = cc
same_bounds-length float (x ∷ xs) (y ∷ ys) h = ground (arith, h, same_bounds-length float xs ys)

add_counts-length : (ns os cs : List ℕ) → add_counts ns os ≡ some cs → length cs ≡ length ns
unfolding add_counts
add_counts-length [] os cs h = ground (arith, h)
add_counts-length (n ∷ ns) [] cs h = cc
add_counts-length (n ∷ ns) (o ∷ os) cs h =
    go (add_counts ns os) refl (λ ds e. add_counts-length ns os ds e)
  where
    go :
        (r : Option (List ℕ))
        → add_counts ns os ≡ r
        → ((ds : List ℕ) → add_counts ns os ≡ some ds → length ds ≡ length ns)
        → length cs ≡ length (n ∷ ns)
    go none p ih = cc (rw (p, add_counts) at h)
    go (some ds) p ih = let i = ih ds p in let h' = rw (p, add_counts) at h in ground (arith, i, h')

module _ {M D : Type 0} (float : Float D) where
  merge_points-WellFormed :
      (prev older newer : HistogramPoint M D)
      → WellFormed older
      → WellFormed newer
      → (r : HistogramPoint M D) × (merge_points float prev older newer ≡ some r) × WellFormed r
  unfolding merge_points
  merge_points-WellFormed prev older newer o n =
      elim (Bool-cases (same_bounds float older.explicit_bounds newer.explicit_bounds)) [
        | inl same ↦
            let lengths =
              same_bounds-length float older.explicit_bounds newer.explicit_bounds same in
            let (cs, e) =
              (add_counts_iff newer.bucket_counts older.bucket_counts).1
                (omega (arith, lengths, o, n)) in
            let l = add_counts-length newer.bucket_counts older.bucket_counts cs e in
            rw (same, e, merge_points) (_, refl, l ∙ n)
        | inr other ↦ rw (other, merge_points) (_, refl, n)
      ]

  pub accumulate_histogram_values-WellFormed :
      (prev current : HistogramPoint M D)
      → WellFormed prev
      → WellFormed current
      → (r : HistogramPoint M D) × (accumulate_histogram_values float prev current ≡ some r)
        × WellFormed r
  unfolding accumulate_histogram_values
  accumulate_histogram_values-WellFormed prev current p c =
      elim (Bool-cases (before current.timestamp prev.timestamp)) [
        | inl e ↦
            rw (e, accumulate_histogram_values) (merge_points-WellFormed prev current prev c p)
        | inr e ↦
            rw (e, accumulate_histogram_values) (merge_points-WellFormed prev prev current p c)
      ]

-- The histogram points of a metric are well formed.
abbrev pub WellFormedPoints : {M D : Type 0} → Points M D → Type 0
WellFormedPoints (histogram t ps) = All (λ p. WellFormed p) ps
WellFormedPoints _ = Unit

module _ {M V D : Type 0} (attrs : AttributeMap M V) (type_string : MetricType → Str)
    (names : TypeNames type_string) (float : Float D) (s : Source M D) where
  histogram_update-Leaves :
      type_of s.metric.points ≡ histogram_type
      → (t : Temporality) (reg : Registry M D) (q p : HistogramPoint M D) → WellFormed q
      → WellFormed p
      → Kept attrs type_string names float reg
      → Leaves (Kept attrs type_string names float) (
          histogram_update attrs type_string float s t
            (signature attrs type_string float s p.attributes)
            reg
            q
            p)
  unfolding histogram_update
  histogram_update-Leaves ty t reg q p wq wp h = go t
    where
      after :
          (r : HistogramPoint M D)
          → WellFormed r
          → Kept attrs type_string names float (
              store attrs type_string float s
                (signature attrs type_string float s p.attributes)
                (histogram cumulative (r ∷ []))
                reg)
      after r w =
          store-Kept attrs type_string names float s p.attributes (histogram cumulative (r ∷ []))
            reg (one_histogram cumulative r w) (sym ty) h

      go :
          (t : Temporality)
          → Leaves (Kept attrs type_string names float) (
              histogram_update attrs type_string float s t
                (signature attrs type_string float s p.attributes)
                reg
                q
                p)
      go unspecified = tt
      go cumulative = elim (Bool-cases (before p.timestamp q.timestamp)) [
        | inl o ↦ rw o tt
        | inr o ↦ rw o (after p wp)
      ]
      go delta = elim (Bool-cases (p.start_timestamp == q.timestamp)) [
        | inl o ↦
            let (r, e, w) = accumulate_histogram_values-WellFormed float q p wq wp in
            rw (o, e) (after r w)
        | inr o ↦ elim (Bool-cases (before q.timestamp p.start_timestamp)) [
          | inl b ↦ rw (o, b) (after p wp)
          | inr b ↦ rw (o, b) tt
        ]
      ]

  pub histogram_step-Leaves :
      type_of s.metric.points ≡ histogram_type
      → (t : Temporality) (reg : Registry M D) (p : HistogramPoint M D)
      → Kept attrs type_string names float reg
      → WellFormed p
      → Leaves
          (Kept attrs type_string names float)
          (histogram_step attrs type_string float s t reg p)
  unfolding histogram_step
  histogram_step-Leaves ty t reg p h wp =
      go p.no_recorded_value (lookup (signature attrs type_string float s p.attributes) reg) refl
        refl
    where
      go :
          (b : Bool) (found : Option (Accumulated M D))
          → p.no_recorded_value ≡ b
          → lookup (signature attrs type_string float s p.attributes) reg ≡ found
          → Leaves
              (Kept attrs type_string names float)
              (histogram_step attrs type_string float s t reg p)
      go true found e l =
          rw (e, histogram_step) (Entries-erase (Fits attrs type_string names float) _ reg h)
      go false none e l =
          rw (e, l, histogram_step)
            (store-Kept attrs type_string names float s p.attributes (histogram cumulative (p ∷ []))
              reg (one_histogram cumulative p wp) (sym ty) h)
      go false (some v) e l =
          let (single, same) = found-type attrs type_string names float s p.attributes v reg h l in
          let (q, g, wq) = histogram_point-Single v.value.points single (same ∙ ty) in
          rw (e, l, g, histogram_step) (histogram_update-Leaves ty t reg q p wq wp h)
