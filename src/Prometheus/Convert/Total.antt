-- ===== src/Prometheus/Convert/Total.antt =====
-- The buckets of a histogram, and the conversion of a metric with one data point.
use hypertrace_collector.Prelude.{
  ℕ, zero, suc, ◌+◌, ◌<◌, ◌≤◌, ◌≡◌, refl, inl, inr, some, List, [], ◌∷◌, ◌++◌, length, get_elem?,
  Bool-cases, arith,
}
use hypertrace_collector.Prelude.All.{All, All-append}
use hypertrace_collector.Prometheus.Histogram.{Float, add64}
use hypertrace_collector.Prometheus.Buckets.{
  sort_floats, added, index_of, index_bounds, count_per_bucket, cumulate, bucket_points,
}

get_elem?-total {ℓ} :
    {A : Type ℓ} (xs : List A) (i : ℕ) → i < length xs → (x : A) × (get_elem? xs i ≡ some x)
get_elem?-total [] i h = elim h [ ]
get_elem?-total (x ∷ xs) zero h = (x, refl)
get_elem?-total (x ∷ xs) (suc i) h = get_elem?-total xs i (omega arith)

module _ {D : Type 0} (float : Float D) where
  -- The indices are below `n`.
  abbrev IndicesBelow : ℕ → List (D × ℕ) → Type 0
  IndicesBelow n m = All (λ e. e.1 < n) m

  index_bounds-IndicesBelow :
      (i n : ℕ) (bs : List D) (m : List (D × ℕ))
      → i + length bs ≤ n
      → IndicesBelow n m
      → IndicesBelow n (index_bounds float i bs m).0
  unfolding index_bounds
  index_bounds-IndicesBelow i n [] m h b = b
  index_bounds-IndicesBelow i n (x ∷ bs) m h b = elim (Bool-cases (added float m x)) [
    | inl e ↦ rw e (index_bounds-IndicesBelow (i + 1) n bs m (omega arith) b)
    | inr e ↦ rw e (
        index_bounds-IndicesBelow (i + 1) n bs (m ++ (x, i) ∷ []) (omega arith)
          (All-append _ m ((x, i) ∷ []) b ((omega arith), tt)))
  ]

  index_of-below :
      (n : ℕ) (m : List (D × ℕ)) (b : D) → 0 < n → IndicesBelow n m → index_of float m b < n
  unfolding index_of
  index_of-below n [] b p h = p
  index_of-below n ((x, k) ∷ m) b p (h, hs) = ground (arith, h, index_of-below n m b p hs)

  cumulate-total :
      (bounds : ℕ) (counts : List ℕ) (m : List (D × ℕ)) (cum : ℕ) (bs : List D)
      → 0 < bounds
      → bounds ≤ length counts
      → IndicesBelow bounds m
      → (ps : List (D × ℕ)) × (cumulate float bounds counts m cum bs ≡ some ps)
  unfolding cumulate
  cumulate-total bounds counts m cum [] p le h = ([], refl)
  cumulate-total bounds counts m cum (b ∷ bs) p le h =
      let below = index_of-below bounds m b p h in
      let (n, e) = get_elem?-total counts (index_of float m b) (omega (arith, below, le)) in
      let found : count_per_bucket float bounds counts (index_of float m b) ≡ some n =
        unfold count_per_bucket in ground (arith, p, below, e) in
      let (ps, f) = cumulate-total bounds counts m (add64 cum n) bs p le h in
      ((b, add64 cum n) ∷ ps, rw (cumulate, found, f) refl)

  -- The conversion of a histogram panics for no point that has a bucket count for every bound.
  pub bucket_points-total :
      (bounds : List D) (counts : List ℕ)
      → length bounds ≤ length counts
      → (ps : List (D × ℕ)) × (bucket_points float bounds counts ≡ some ps)
  unfolding bucket_points index_bounds cumulate sort_floats
  bucket_points-total [] counts h = ([], refl)
  bucket_points-total (b ∷ bs) counts h =
      cumulate-total (length (b ∷ bs)) counts (index_bounds float 0 (b ∷ bs) []).0 0
        (sort_floats float (index_bounds float 0 (b ∷ bs) []).1) (omega arith) h
        (index_bounds-IndicesBelow 0 (length (b ∷ bs)) (b ∷ bs) [] (omega arith) tt)
