-- ===== src/Prometheus/Buckets.antt =====
-- The buckets of convertDoubleHistogram (exporter/prometheusexporter/collector.go).
pub mod Cumulative
use hypertrace_collector.Prelude.{
  ℕ, ◌+◌, Bool, true, false, not, ◌&&◌, ◌||◌, Option, none, some, List, [], ◌∷◌, ◌++◌, length,
  get_elem?, ltb, if◌then◌else◌,
}
use hypertrace_collector.Prometheus.Histogram.{Float, add64}

module _ {D : Type 0} (float : Float D) where
  -- The order of sort.Float64s: a NaN, which does not equal itself, comes before all others.
  abbrev pub sorts_before : D → D → Bool
  sorts_before x y = float.lt x y || (not (float.eq x x) && float.eq y y)

  -- sort.Float64s, as an insertion sort.
  unfoldable pub insert_float : D → List D → List D
  insert_float x [] = x ∷ []
  insert_float x (y ∷ ys) =
      let rest = insert_float x ys in if sorts_before y x then y ∷ rest else x ∷ y ∷ ys

  unfoldable pub sort_floats : List D → List D
  unfolding insert_float
  sort_floats [] = []
  sort_floats (x ∷ xs) = insert_float x (sort_floats xs)

  -- `_, added := indicesMap[bucket]`
  unfoldable pub added : List (D × ℕ) → D → Bool
  added [] b = false
  added ((x, k) ∷ m) b = float.eq x b || added m b

  -- `indicesMap[bucket]`, which is 0 for a missing key.
  unfoldable pub index_of : List (D × ℕ) → D → ℕ
  index_of [] b = 0
  index_of ((x, k) ∷ m) b = if float.eq x b then k else index_of m b

  -- The loop over the explicit bounds, from the index `i` on: indicesMap and buckets.
  unfoldable pub index_bounds : ℕ → List D → List (D × ℕ) → List (D × ℕ) × List D
  unfolding added
  index_bounds i [] m = (m, [])
  index_bounds i (b ∷ bs) m =
      let old = index_bounds (i + 1) bs m in
      let new = index_bounds (i + 1) bs (m ++ (b, i) ∷ []) in
      if added m b then old else (new.0, b ∷ new.1)

  -- countPerBucket; none is the panic of an index out of range.
  unfoldable pub count_per_bucket : ℕ → List ℕ → ℕ → Option ℕ
  count_per_bucket bounds counts index =
      if ltb 0 bounds && ltb index bounds then get_elem? counts index else some 0

  -- The loop over the buckets: the assignments to `points`, in order.
  unfoldable pub cumulate : ℕ → List ℕ → List (D × ℕ) → ℕ → List D → Option (List (D × ℕ))
  unfolding index_of count_per_bucket
  cumulate bounds counts m cum [] = some []
  cumulate bounds counts m cum (b ∷ bs) = elim (count_per_bucket bounds counts (index_of m b)) [
    | none ↦ none
    | some n ↦ elim (cumulate bounds counts m (add64 cum n) bs) [
      | none ↦ none
      | some ps ↦ some ((b, add64 cum n) ∷ ps)
    ]
  ]

  -- The points of a histogram with the given explicit bounds and bucket counts.
  unfoldable pub bucket_points : List D → List ℕ → Option (List (D × ℕ))
  unfolding sort_floats index_bounds cumulate
  bucket_points bounds counts =
      let indexed = index_bounds 0 bounds [] in
      cumulate (length bounds) counts indexed.0 0 (sort_floats indexed.1)
