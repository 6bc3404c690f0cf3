-- ===== src/Prometheus/Accumulator/Fresh.antt =====
-- The timestamps of the gauges that accumulateGauge stores.
use hypertrace_collector.Prelude.{
  ℕ, ◌+◌, ◌≡◌, ◌≢◌, refl, ◌∙◌, subst, Bool, true, false, Bool-cases, inl, inr, Option, none, some,
  List, [], ◌∷◌, Str, str_eq, str_eq_iff, ltb, arith,
}
use hypertrace_collector.Prelude.All.{All}
use hypertrace_collector.Prelude.GoMap.{lookup, lookup-insert}
use hypertrace_collector.Pdata.Attributes.{AttributeMap}
use hypertrace_collector.Pdata.Metrics.{NumberPoint, gauge}
use hypertrace_collector.Prometheus.Signature.{MetricType}
use hypertrace_collector.Prometheus.Histogram.{Float, before}
use hypertrace_collector.Prometheus.Accumulator.{
  Source, accumulated, signature, store, gauge_step, add_points,
}
use hypertrace_collector.Prometheus.LastValues.{
  Accumulated, Registry, Step, panic, stop, skip, stored, each_point, gauge_point,
}

ltb_chain : (a b c : ℕ) → ltb a b ≡ false → ltb b c ≡ false → ltb a c ≡ false
ltb_chain a b c h i = ground arith

before_chain : (a b c : ℕ) → before a b ≡ false → before b c ≡ false → before a c ≡ false
before_chain a b c h i = ltb_chain _ _ _ h i

module _ {M D : Type 0} where
  -- The registry holds a gauge under `k` whose timestamp is not before `t`.
  abbrev pub Holds : Str → ℕ → Registry M D → Type 0
  Holds k t reg =
      (v : Accumulated M D) × (lookup k reg ≡ some v)
      × (q : NumberPoint M D) × (gauge_point v.value.points ≡ some q)
      × (before q.timestamp t ≡ false)

stored-injective : {R : Type 0} {a b : R} → stored a ≡ stored b → a ≡ b
stored-injective h = cc

module _ {M V D : Type 0} (attrs : AttributeMap M V) (type_string : MetricType → Str)
    (float : Float D) (s : Source M D) where
  -- A store of a point that is newer than what its signature has, or of another signature.
  store-Holds :
      (k sig : Str) (t : ℕ) (p : NumberPoint M D) (reg : Registry M D)
      → Holds k t reg
      → (str_eq sig k ≡ true → before p.timestamp t ≡ false)
      → Holds k t (store attrs type_string float s sig (gauge (p ∷ [])) reg)
  unfolding store
  store-Holds k sig t p reg (v, l, q, g, b) newer = elim (Bool-cases (str_eq sig k)) [
    | inl e ↦ (
      accumulated s (gauge (p ∷ [])),
      lookup-insert sig k (accumulated s (gauge (p ∷ []))) reg ∙ rw e refl,
      p,
      refl,
      newer e,
    )
    | inr e ↦ (v, lookup-insert sig k (accumulated s (gauge (p ∷ []))) reg ∙ rw e l, q, g, b)
  ]

  gauge_step-Holds :
      (k : Str) (t : ℕ) (p : NumberPoint M D) (reg reg' : Registry M D)
      → Holds k t reg
      → gauge_step attrs type_string float s reg p ≡ stored reg'
      → Holds k t reg'
  unfolding gauge_step
  gauge_step-Holds k t p reg reg' held h =
      go p.no_recorded_value (lookup (signature attrs type_string float s p.attributes) reg) refl
        refl
    where
      sig : Str
      sig = signature attrs type_string float s p.attributes

      after : Registry M D
      after = store attrs type_string float s sig (gauge (p ∷ [])) reg

      kept :
          (str_eq sig k ≡ true → before p.timestamp t ≡ false)
          → stored after ≡ stored reg'
          → Holds k t reg'
      kept newer e = subst (Holds k t) (stored-injective e) (store-Holds k sig t p reg held newer)

      go :
          (b : Bool) (found : Option (Accumulated M D))
          → p.no_recorded_value ≡ b
          → lookup sig reg ≡ found
          → Holds k t reg'
      go true found e l = cc (rw (e, gauge_step) at h)
      go false none e l =
          kept
            (λ i.
              let (v, l', q, g', b) = held in
              let same : sig ≡ k = (str_eq_iff sig k).0 i in cc (l, l', same))
            (rw (e, l, gauge_step) at h)
      go false (some w) e l = point (gauge_point w.value.points) refl
        where
          point : (r : Option (NumberPoint M D)) → gauge_point w.value.points ≡ r → Holds k t reg'
          point none g = cc (rw (e, l, g, gauge_step) at h)
          point (some r) g = order (before p.timestamp r.timestamp) refl
            where
              order : (c : Bool) → before p.timestamp r.timestamp ≡ c → Holds k t reg'
              order true o = cc (rw (e, l, g, o, gauge_step) at h)
              order false o =
                  kept
                    (λ i.
                      let (v, l', q, g', b) = held in
                      let same : sig ≡ k = (str_eq_iff sig k).0 i in
                      let eq : r.timestamp ≡ q.timestamp = cc (l, l', same, g, g') in
                      before_chain p.timestamp r.timestamp t o (rw eq b))
                    (rw (e, l, g, o, gauge_step) at h)

  gauge_step-goes_on :
      (p : NumberPoint M D) (reg r : Registry M D)
      → p.no_recorded_value ≡ false
      → gauge_step attrs type_string float s reg p ≢ stop r
  unfolding gauge_step
  gauge_step-goes_on p reg r f e = ground (arith, f, e)

  gauges-Hold :
      (k : Str) (t n m : ℕ) (ps : List (NumberPoint M D)) (reg reg' : Registry M D)
      → All (λ p. p.no_recorded_value ≡ false) ps
      → Holds k t reg
      → each_point (gauge_step attrs type_string float s) reg n ps ≡ some (reg', m)
      → Holds k t reg'
  unfolding each_point
  gauges-Hold k t n m [] reg reg' fresh held h = subst (Holds k t) (ground (arith, h)) held
  gauges-Hold k t n m (p ∷ ps) reg reg' (f, fs) held h =
      go (gauge_step attrs type_string float s reg p) refl
        (λ r i x. gauges-Hold k t i m ps r reg' fs x)
    where
      go :
          (st : Step (Registry M D))
          → gauge_step attrs type_string float s reg p ≡ st
          → ((r : Registry M D) (i : ℕ)
              → Holds k t r
              → each_point (gauge_step attrs type_string float s) r i ps ≡ some (reg', m)
              → Holds k t reg')
          → Holds k t reg'
      go panic e ih = cc (rw (e, each_point) at h)
      go (stop r) e ih = elim (gauge_step-goes_on p reg r f e) [ ]
      go skip e ih = ih reg n held (rw (e, each_point) at h)
      go (stored r) e ih =
          ih r (n + 1) (gauge_step-Holds k t p reg r held e) (rw (e, each_point) at h)

  -- A gauge that is stored under a signature stays under it while data points with a recorded value
  -- arrive, and its timestamp never goes back, whatever order the points arrive in.
  pub add_points-Holds :
      (k : Str) (t m : ℕ) (ps : List (NumberPoint M D)) (reg reg' : Registry M D)
      → All (λ p. p.no_recorded_value ≡ false) ps
      → Holds k t reg
      → add_points attrs type_string float s (gauge ps) reg ≡ some (reg', m)
      → Holds k t reg'
  unfolding add_points
  add_points-Holds k t m ps reg reg' fresh held h = gauges-Hold k t 0 m ps reg reg' fresh held h
