-- ===== src/Prometheus/Buckets/Cumulative.antt =====
-- The points of a histogram whose bounds ascend.
use hypertrace_collector.Prelude.{
  ℕ, suc, ◌+◌, ◌≤◌, ◌<◌, ◌≡◌, refl, ◌∙◌, ap, true, false, ◌||◌, some, List, [], ◌∷◌, ◌++◌,
  append_assoc, append-nil, length, get_elem?, arith,
}
use hypertrace_collector.Prelude.All.{All}
use hypertrace_collector.Prometheus.Histogram.{Float, add64}
use hypertrace_collector.Prometheus.Buckets.{
  insert_float, sort_floats, added, index_of, index_bounds, count_per_bucket, cumulate,
  bucket_points,
}

module _ {D : Type 0} (float : Float D) where
  -- `x` is below `b`, as far as the code compares them.
  abbrev Below : D → D → Type 0
  Below x b = (float.eq x b ≡ false) × (float.lt b x ≡ false)

  -- Every bound equals itself, so that none is NaN, and is below all bounds behind it.
  abbrev Ascending : List D → Type 0
  Ascending [] = Unit
  Ascending (b ∷ bs) = (float.eq b b ≡ true) × All (Below b) bs × Ascending bs

  -- Each bound with the sum of its bucket's count and those before it, and `cum`, as 64-bit numbers.
  abbrev running : ℕ → List D → List ℕ → List (D × ℕ)
  running cum (b ∷ bs) (n ∷ ns) = (b, add64 cum n) ∷ running (add64 cum n) bs ns
  running cum _ _ = []

  sort-Ascending : (bs : List D) → Ascending bs → sort_floats float bs ≡ bs
  unfolding sort_floats insert_float
  sort-Ascending [] h = refl
  sort-Ascending (b ∷ []) h = refl
  sort-Ascending (b ∷ c ∷ bs) (e, ((n, l), r), h) =
      rw (sort-Ascending (c ∷ bs) h) (rw (l, h.0) refl)

  -- Bounds with their indices from `i` on.
  abbrev enumerated : ℕ → List D → List (D × ℕ)
  enumerated i [] = []
  enumerated i (b ∷ bs) = (b, i) ∷ enumerated (i + 1) bs

  added-append :
      (m : List (D × ℕ)) (x b : D) (k : ℕ)
      → added float (m ++ (x, k) ∷ []) b ≡ (added float m b || float.eq x b)
  unfolding added
  added-append [] x b k = ground arith
  added-append ((y, j) ∷ m) x b k = ground (arith, added-append m x b k)

  abbrev Fresh : List (D × ℕ) → List D → Type 0
  Fresh m bs = All (λ b. added float m b ≡ false) bs

  Fresh-append :
      (m : List (D × ℕ)) (x : D) (k : ℕ) (bs : List D)
      → All (Below x) bs
      → Fresh m bs
      → Fresh (m ++ (x, k) ∷ []) bs
  Fresh-append m x k [] h f = tt
  Fresh-append m x k (b ∷ bs) ((n, l), h) (e, f) =
      (added-append m x b k ∙ ground (arith, n, e), Fresh-append m x k bs h f)

  index_bounds-Ascending :
      (i : ℕ) (bs : List D) (m : List (D × ℕ))
      → Ascending bs
      → Fresh m bs
      → index_bounds float i bs m ≡ (m ++ enumerated i bs, bs)
  unfolding index_bounds
  index_bounds-Ascending i [] m h f = rw (append-nil m) refl
  index_bounds-Ascending i (b ∷ bs) m (e, l, h) (a, f) =
      let ih = index_bounds-Ascending (i + 1) bs (m ++ (b, i) ∷ []) h (Fresh-append m b i bs l f) in
      rw (a, ih, append_assoc) refl

  -- The indices of the bounds `bs`, from `i` on.
  abbrev Indexed : List (D × ℕ) → ℕ → List D → Type 0
  Indexed m i [] = Unit
  Indexed m i (b ∷ bs) = (index_of float m b ≡ i) × Indexed m (i + 1) bs

  Indexed-cons :
      (m : List (D × ℕ)) (x : D) (k i : ℕ) (bs : List D)
      → All (Below x) bs
      → Indexed m i bs
      → Indexed ((x, k) ∷ m) i bs
  unfolding index_of
  Indexed-cons m x k i [] l h = tt
  Indexed-cons m x k i (b ∷ bs) ((n, r), l) (e, h) = (rw n e, Indexed-cons m x k (i + 1) bs l h)

  enumerated-Indexed : (i : ℕ) (bs : List D) → Ascending bs → Indexed (enumerated i bs) i bs
  unfolding index_of
  enumerated-Indexed i [] h = tt
  enumerated-Indexed i (b ∷ bs) (e, l, h) = (
    rw e refl,
    Indexed-cons (enumerated (i + 1) bs) b i (i + 1) bs l (enumerated-Indexed (i + 1) bs h),
  )

  count_per_bucket-in :
      (bounds i : ℕ) (counts : List ℕ) (n : ℕ)
      → i < bounds
      → get_elem? counts i ≡ some n
      → count_per_bucket float bounds counts i ≡ some n
  unfolding count_per_bucket
  count_per_bucket-in bounds i counts n lt e = ground (arith, lt, e)

  cumulate-running :
      (bounds : ℕ) (counts : List ℕ) (m : List (D × ℕ)) (i cum : ℕ) (bs : List D) (cs : List ℕ)
      → Indexed m i bs
      → i + length bs ≤ bounds
      → ((k : ℕ) → get_elem? counts (i + k) ≡ get_elem? cs k)
      → length bs ≤ length cs
      → cumulate float bounds counts m cum bs ≡ some (running cum bs cs)
  unfolding cumulate
  cumulate-running bounds counts m i cum [] cs ix le same l = refl
  cumulate-running bounds counts m i cum (b ∷ bs) [] ix le same l =
      (let none_left : suc (length bs) ≤ 0 = l in elim none_left [ ])
  cumulate-running bounds counts m i cum (b ∷ bs) (n ∷ ns) (e, ix) le same l =
      let z : i + 0 ≡ i = omega arith in
      let here : get_elem? counts i ≡ some n = rw z at (same 0) in
      let found = count_per_bucket-in bounds i counts n (omega arith) here in
      let shift : (k : ℕ) → get_elem? counts ((i + 1) + k) ≡ get_elem? ns k =
        λ k. ap (λ j. get_elem? counts j) (omega arith) ∙ same (suc k) in
      rw
        (
          cumulate,
          e,
          found,
          cumulate-running bounds counts m (i + 1) (add64 cum n) bs ns ix (omega arith) shift
              (omega arith),
        )
        refl

  nothing_added : (bs : List D) → Fresh [] bs
  unfolding added
  nothing_added [] = tt
  nothing_added (b ∷ bs) = (refl, nothing_added bs)

  -- For bounds that ascend, none of them NaN, and at least as many bucket counts as bounds, the points
  -- of the histogram are the bounds in their order, each with the sum of the counts of its bucket and
  -- those before it, modulo 2 ^ 64.
  pub bucket_points-running :
      (bounds : List D) (counts : List ℕ)
      → Ascending bounds
      → length bounds ≤ length counts
      → bucket_points float bounds counts ≡ some (running 0 bounds counts)
  unfolding bucket_points
  bucket_points-running bounds counts h le =
      rw (index_bounds-Ascending 0 bounds [] h (nothing_added bounds), sort-Ascending bounds h)
        (cumulate-running (length bounds) counts (enumerated 0 bounds) 0 0 bounds counts
          (enumerated-Indexed 0 bounds h) (omega arith)
          (λ k. ap (λ j. get_elem? counts j) (omega arith)) le)
