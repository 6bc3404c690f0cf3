-- ===== src/Prometheus/Histogram.antt =====
-- accumulateHistogramValues (exporter/prometheusexporter/accumulator.go), and the comparison of
-- timestamps.
pub use hypertrace_collector.Pdata.Metrics.{HistogramPoint}
use hypertrace_collector.Prelude.{
  ℕ, ◌+◌, ◌%◌, ◌^◌, Bool, true, false, ◌&&◌, Option, none, some, List, [], ◌∷◌, ltb, if◌then◌else◌,
}

-- float64: addition, the comparisons and zero.
pub record Float (D : Type 0) : Type 0 where
  pub add : D → D → D
  pub eq : D → D → Bool
  pub lt : D → D → Bool
  pub zero : D

-- Addition of uint64 and int64.
abbrev pub add64 : ℕ → ℕ → ℕ
add64 a b = (a + b) % 2 ^ 64

-- `a.AsTime().Before(b.AsTime())`: a timestamp is read as an int64 of nanoseconds.
abbrev pub before : ℕ → ℕ → Bool
before a b = ltb ((a + 2 ^ 63) % 2 ^ 64) ((b + 2 ^ 63) % 2 ^ 64)

-- `newer.BucketCounts().At(i) + older.BucketCounts().At(i)` for each bucket of the newer point; none is
-- the panic of an index out of range.
unfoldable pub add_counts : List ℕ → List ℕ → Option (List ℕ)
add_counts [] older = some []
add_counts (n ∷ ns) [] = none
add_counts (n ∷ ns) (o ∷ os) = elim (add_counts ns os) [
  | none ↦ none
  | some cs ↦ some (add64 n o ∷ cs)
]

module _ {D : Type 0} (float : Float D) where
  -- The comparison of the bucket boundaries.
  unfoldable pub same_bounds : List D → List D → Bool
  same_bounds [] [] = true
  same_bounds (a ∷ xs) (b ∷ ys) = float.eq a b && same_bounds xs ys
  same_bounds _ _ = false

module _ {M D : Type 0} (float : Float D) where
  -- The point that is stored, from the one with the later timestamp and the other one.
  unfoldable pub merge_points :
      HistogramPoint M D → HistogramPoint M D → HistogramPoint M D → Option (HistogramPoint M D)
  unfolding same_bounds add_counts
  merge_points prev older newer =
      if same_bounds float older.explicit_bounds newer.explicit_bounds
      then elim (add_counts newer.bucket_counts older.bucket_counts) [
        | none ↦ none
        | some counts ↦ some (record newer {
          start_timestamp = prev.start_timestamp;
          no_recorded_value = false;
          count = add64 newer.count older.count;
          sum = float.add newer.sum older.sum;
          bucket_counts = counts;
        })
      ]
      else some (record newer { start_timestamp = prev.start_timestamp; no_recorded_value = false })

  -- accumulateHistogramValues; none is a panic.
  unfoldable pub accumulate_histogram_values :
      HistogramPoint M D → HistogramPoint M D → Option (HistogramPoint M D)
  unfolding merge_points
  accumulate_histogram_values prev current =
      if before current.timestamp prev.timestamp
      then merge_points prev current prev
      else merge_points prev prev current
