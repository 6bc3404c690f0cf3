-- ===== src/Prometheus/Accumulator/Deltas.antt =====
-- The accumulation of delta sums in accumulateSum.
use hypertrace_collector.Prelude.{
  ℕ, ◌+◌, ◌%◌, ◌^◌, ◌<◌, ◌≡◌, refl, ◌∙◌, ap, subst, sym, true, false, some, List, [], ◌∷◌, Str,
  str_eq_refl, length, arith,
}
use hypertrace_collector.Prelude.GoMap.{lookup, lookup-insert}
use hypertrace_collector.Pdata.Attributes.{AttributeMap}
use hypertrace_collector.Pdata.Metrics.{NumberPoint, int_value, sum, delta, cumulative}
use hypertrace_collector.Prometheus.Signature.{MetricType}
use hypertrace_collector.Prometheus.Histogram.{Float, before, add64}
use hypertrace_collector.Prometheus.Accumulator.{
  Source, signature, store, accumulated, sum_step, accumulate_sum,
}
use hypertrace_collector.Prometheus.LastValues.{
  Accumulated, Registry, stored, each_point, sum_point, add_value, to_cumulative, int_of,
}

module _ {M D : Type 0} where
  -- The registry holds under `k` a sum with the integer `a`, from `start` to `t`.
  abbrev pub SumAt : Str → ℕ → ℕ → ℕ → Registry M D → Type 0
  SumAt k start t a reg =
      (v : Accumulated M D) × (lookup k reg ≡ some v)
      × (q : NumberPoint M D) × (sum_point v.value.points ≡ some q)
      × (q.start_timestamp ≡ start)
      × (q.timestamp ≡ t)
      × (q.value ≡ int_value a)

  -- The sum of the values.
  abbrev total_value : List (NumberPoint M D) → ℕ
  total_value [] = 0
  total_value (p ∷ ps) = int_of p.value + total_value ps

  -- The timestamp of the last point, or `t`.
  abbrev last_timestamp : ℕ → List (NumberPoint M D) → ℕ
  last_timestamp t [] = t
  last_timestamp t (p ∷ ps) = last_timestamp p.timestamp ps

module _ {M V D : Type 0} (attrs : AttributeMap M V) (type_string : MetricType → Str)
    (float : Float D) (s : Source M D) where
  -- Integer points of the time series `k`, each of which starts where the one before it ends; the first
  -- starts at `t`.
  abbrev Aligned : Str → ℕ → List (NumberPoint M D) → Type 0
  Aligned k t [] = Unit
  Aligned k t (p ∷ ps) =
      (p.no_recorded_value ≡ false)
      × (signature attrs type_string float s p.attributes ≡ k)
      × (p.start_timestamp ≡ t)
      × (before p.timestamp t ≡ false)
      × (p.value ≡ int_value (int_of p.value))
      × Aligned k p.timestamp ps

  to_cumulative-int :
      (q p : NumberPoint M D) (a : ℕ)
      → p.start_timestamp ≡ q.timestamp
      → q.value ≡ int_value a
      → p.value ≡ int_value (int_of p.value)
      → ((to_cumulative float delta q p).start_timestamp ≡ q.start_timestamp)
        × ((to_cumulative float delta q p).timestamp ≡ p.timestamp)
        × ((to_cumulative float delta q p).value ≡ int_value (add64 (int_of p.value) a))
  unfolding to_cumulative add_value
  to_cumulative-int q p a e hq hp = ground (arith, e, hq, hp)

  -- One step: the point is stored, accumulated.
  sum_step-stored :
      (p q : NumberPoint M D) (v : Accumulated M D) (reg : Registry M D)
      → p.no_recorded_value ≡ false
      → lookup (signature attrs type_string float s p.attributes) reg ≡ some v
      → sum_point v.value.points ≡ some q
      → before p.timestamp q.timestamp ≡ false
      → sum_step attrs type_string float s delta true reg p
        ≡ stored (
            store attrs type_string float s
              (signature attrs type_string float s p.attributes)
              (sum cumulative true (to_cumulative float delta q p ∷ []))
              reg)
  unfolding sum_step
  sum_step-stored p q v reg n l g b = simp (n, l, g, b)

  store-SumAt :
      (k : Str) (start t a : ℕ) (r : NumberPoint M D) (reg : Registry M D)
      → r.start_timestamp ≡ start
      → r.timestamp ≡ t
      → r.value ≡ int_value a
      → SumAt k start t a (store attrs type_string float s k (sum cumulative true (r ∷ [])) reg)
  unfolding store
  store-SumAt k start t a r reg e f g = (
    accumulated s (sum cumulative true (r ∷ [])),
    lookup-insert k k (accumulated s (sum cumulative true (r ∷ []))) reg ∙ rw (str_eq_refl k) refl,
    r,
    refl,
    e,
    f,
    g,
  )

  sums-SumAt :
      (k : Str) (start t a n : ℕ) (ps : List (NumberPoint M D)) (reg : Registry M D)
      → a < 2 ^ 64
      → Aligned k t ps
      → SumAt k start t a reg
      → (reg' : Registry M D) × (each_point (sum_step attrs type_string float s delta true) reg n ps
          ≡ some (reg', n + length ps))
        × SumAt k start (last_timestamp t ps) ((a + total_value ps) % 2 ^ 64) reg'
  unfolding each_point
  sums-SumAt k start t a n [] reg lt al (v, l, q, g, e, f, h) =
      let m : n ≡ n + 0 = omega arith in
      let c : a ≡ (a + 0) % 2 ^ 64 = omega arith in
      (reg, ap (λ z. some (reg, z)) m, (v, l, q, g, e, f, h ∙ ap int_value c))
  sums-SumAt k start t a n (p ∷ ps) reg lt (nr, sig, st, b, i, al) (v, l, q, g, e, f, h) =
      let (x, y, z) = to_cumulative-int q p a (st ∙ sym f) h i in
      let next =
        store attrs type_string float s k (sum cumulative true (to_cumulative float delta q p ∷ []))
          reg in
      let stepped : sum_step attrs type_string float s delta true reg p ≡ stored next =
        sum_step-stored p q v reg nr (rw sig l) g (rw f b) ∙ rw sig refl in
      let (reg', done, held) =
        sums-SumAt k start p.timestamp (add64 (int_of p.value) a) (n + 1) ps next (omega arith) al (
          store-SumAt k start p.timestamp (add64 (int_of p.value) a) (to_cumulative float delta q p)
            reg (x ∙ e) y z) in
      let m : (n + 1) + length ps ≡ n + length (p ∷ ps) = omega arith in
      let c : (add64 (int_of p.value) a + total_value ps) % 2 ^ 64
          ≡ (a + total_value (p ∷ ps)) % 2 ^ 64 =
        omega arith in
      (
        reg',
        rw (stepped, each_point) (done ∙ ap (λ z. some (reg', z)) m),
        subst (λ z. SumAt k start (last_timestamp p.timestamp ps) z reg') c held,
      )

  -- Let the registry hold an integer sum below 2 ^ 64 for a time series, and let each of the integer
  -- points of a monotonic delta sum for that series start at the timestamp of the one before it and not
  -- be earlier. Then each point is stored, and the registry holds, as a cumulative sum, the integer it
  -- held plus the points' values, modulo 2 ^ 64, from where the sum before started to the timestamp of
  -- the last point.
  pub accumulate_sum-deltas :
      (k : Str) (start t a : ℕ) (ps : List (NumberPoint M D)) (reg : Registry M D)
      → a < 2 ^ 64
      → Aligned k t ps
      → SumAt k start t a reg
      → (reg' : Registry M D) × (accumulate_sum attrs type_string float s delta true ps reg
          ≡ some (reg', length ps))
        × SumAt k start (last_timestamp t ps) ((a + total_value ps) % 2 ^ 64) reg'
  unfolding accumulate_sum
  accumulate_sum-deltas k start t a ps reg lt al held =
      let (reg', done, after) = sums-SumAt k start t a 0 ps reg lt al held in
      let z : 0 + length ps ≡ length ps = omega arith in
      (reg', done ∙ ap (λ i. some (reg', i)) z, after)
