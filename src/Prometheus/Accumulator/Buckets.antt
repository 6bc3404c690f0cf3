-- ===== src/Prometheus/Accumulator/Buckets.antt =====
-- The counts of merged histograms.
use hypertrace_collector.Prelude.{
  ℕ, ◌+◌, ◌%◌, ◌^◌, ◌≤◌, ◌≡◌, ◌↔◌, refl, Bool, true, false, Option, none, some, List, [], ◌∷◌,
  length, arith,
}
use hypertrace_collector.Pdata.Metrics.{HistogramPoint}
use hypertrace_collector.Prometheus.Histogram.{
  Float, add64, before, add_counts, same_bounds, merge_points, accumulate_histogram_values,
}

abbrev total : List ℕ → ℕ
total [] = 0
total (n ∷ ns) = n + total ns

-- The counts of the buckets add up to the count, as 64-bit numbers.
abbrev pub Consistent : {M D : Type 0} → HistogramPoint M D → Type 0
Consistent p = total p.bucket_counts % 2 ^ 64 ≡ p.count % 2 ^ 64

-- There is no panic exactly when the older point has no fewer buckets than the newer one.
pub add_counts_iff :
    (ns os : List ℕ) → ((cs : List ℕ) × (add_counts ns os ≡ some cs)) ↔ (length ns ≤ length os)
unfolding add_counts
add_counts_iff [] os = (λ h. omega arith, λ h. ([], refl))
add_counts_iff (n ∷ ns) [] = (λ h. cc (h.1), λ h. ground arith)
add_counts_iff (n ∷ ns) (o ∷ os) = go (add_counts ns os) refl (add_counts_iff ns os)
  where
    go :
        (r : Option (List ℕ))
        → add_counts ns os ≡ r
        → (((cs : List ℕ) × (add_counts ns os ≡ some cs)) ↔ (length ns ≤ length os))
        → ((cs : List ℕ) × (add_counts (n ∷ ns) (o ∷ os) ≡ some cs))
          ↔ (length (n ∷ ns) ≤ length (o ∷ os))
    go none p ih =
        (λ h. cc (rw (p, add_counts) at h.1), λ h. let (cs, e) = ih.1 (omega arith) in cc (p, e))
    go (some cs) p ih =
        (λ h. let le = ih.0 (cs, p) in omega arith, λ h. (add64 n o ∷ cs, rw (add_counts, p) refl))

add_counts-total :
    (ns os cs : List ℕ)
    → add_counts ns os ≡ some cs
    → length ns ≡ length os
    → total cs % 2 ^ 64 ≡ (total ns + total os) % 2 ^ 64
unfolding add_counts
add_counts-total [] [] cs h e = ground (arith, h)
add_counts-total [] (o ∷ os) cs h e = omega arith
add_counts-total (n ∷ ns) [] cs h e = cc
add_counts-total (n ∷ ns) (o ∷ os) cs h e =
    go (add_counts ns os) refl (λ ds p. add_counts-total ns os ds p (omega arith))
  where
    go :
        (r : Option (List ℕ))
        → add_counts ns os ≡ r
        → ((ds : List ℕ)
            → add_counts ns os ≡ some ds
            → total ds % 2 ^ 64 ≡ (total ns + total os) % 2 ^ 64)
        → total cs % 2 ^ 64 ≡ (total (n ∷ ns) + total (o ∷ os)) % 2 ^ 64
    go none p ih = cc (rw (p, add_counts) at h)
    go (some ds) p ih = let i = ih ds p in let h' = rw (p, add_counts) at h in ground (arith, i, h')

module _ {M D : Type 0} (float : Float D) where
  merge_points-Consistent :
      (prev older newer r : HistogramPoint M D)
      → length newer.bucket_counts ≡ length older.bucket_counts
      → Consistent older
      → Consistent newer
      → merge_points float prev older newer ≡ some r
      → Consistent r
  unfolding merge_points
  merge_points-Consistent prev older newer r l ho hn h =
      go (same_bounds float older.explicit_bounds newer.explicit_bounds)
        (add_counts newer.bucket_counts older.bucket_counts) refl refl
    where
      go :
          (b : Bool) (c : Option (List ℕ))
          → same_bounds float older.explicit_bounds newer.explicit_bounds ≡ b
          → add_counts newer.bucket_counts older.bucket_counts ≡ c
          → Consistent r
      go true none p q = cc (rw (p, q, merge_points) at h)
      go true (some cs) p q =
          let t = add_counts-total newer.bucket_counts older.bucket_counts cs q l in
          let h' = rw (p, q, merge_points) at h in ground (arith, t, h')
      go false c p q = let h' = rw (p, merge_points) at h in ground (arith, h')

  -- If the bucket counts of two points with as many buckets add up to the points' counts, modulo
  -- 2 ^ 64, then so do those of the point that accumulates them.
  pub accumulate_histogram_values-Consistent :
      (prev current r : HistogramPoint M D)
      → length prev.bucket_counts ≡ length current.bucket_counts
      → Consistent prev
      → Consistent current
      → accumulate_histogram_values float prev current ≡ some r
      → Consistent r
  unfolding accumulate_histogram_values
  accumulate_histogram_values-Consistent prev current r l hp hc h =
      go (before current.timestamp prev.timestamp) refl
    where
      go : (b : Bool) → before current.timestamp prev.timestamp ≡ b → Consistent r
      go true p =
          merge_points-Consistent prev current prev r l hc hp
            (rw (p, accumulate_histogram_values) at h)
      go false p =
          merge_points-Consistent prev prev current r (cc (l)) hp hc
            (rw (p, accumulate_histogram_values) at h)
