-- ===== src/Prometheus/Accumulator/Latest.antt =====
-- The abstract view of the gauges: the latest point of each time series, in the order of timestamps,
-- and of equal timestamps the one that arrived last.
use hypertrace_collector.Prelude.{
  ℕ, ◌+◌, ◌≡◌, refl, sym, ap, subst, ◌∙◌, inl, inr, Bool, true, false, Option, none, some, List, [],
  ◌∷◌, Str, str_eq, str_eq_iff, Bool-cases, if◌then◌else◌,
}
use hypertrace_collector.Prelude.All.{All}
use hypertrace_collector.Prelude.GoMap.{lookup, lookup-insert}
use hypertrace_collector.Pdata.Attributes.{AttributeMap}
use hypertrace_collector.Pdata.Metrics.{NumberPoint, gauge}
use hypertrace_collector.Prometheus.Signature.{MetricType, gauge_type, type_of}
use hypertrace_collector.Prometheus.Histogram.{Float, before}
use hypertrace_collector.Prometheus.LastValues.{
  Accumulated, Registry, Step, panic, stop, skip, stored, each_point, gauge_point,
}
use hypertrace_collector.Prometheus.Accumulator.{
  Source, accumulated, signature, store, gauge_step, add_points,
}
use hypertrace_collector.Prometheus.Accumulator.Kept.{TypeNames, gauge_point-Single, one_gauge}
use hypertrace_collector.Prometheus.Accumulator.Safe.{Kept, store-Kept, found-type}

module _ {M D : Type 0} where
  -- The later of two points of a series.
  abbrev newest : Option (NumberPoint M D) → NumberPoint M D → NumberPoint M D
  newest none p = p
  newest (some q) p = if before p.timestamp q.timestamp then q else p

  -- A store of latest points, when one more point of a series arrives.
  abbrev pub arrive :
      (Str → Option (NumberPoint M D)) → Str → NumberPoint M D → Str → Option (NumberPoint M D)
  arrive latest sig p k = if str_eq sig k then some (newest (latest k) p) else latest k

  abbrev pub arrive_all :
      (NumberPoint M D → Str)
      → (Str → Option (NumberPoint M D))
      → List (NumberPoint M D)
      → Str
      → Option (NumberPoint M D)
  arrive_all sig latest [] k = latest k
  arrive_all sig latest (p ∷ ps) k = arrive_all sig (arrive latest (sig p) p) ps k

  arrive_all-same :
      (sig : NumberPoint M D → Str) (f g : Str → Option (NumberPoint M D))
      (ps : List (NumberPoint M D)) (k : Str)
      → ((j : Str) → f j ≡ g j)
      → arrive_all sig f ps k ≡ arrive_all sig g ps k
  arrive_all-same sig f g [] k h = h k
  arrive_all-same sig f g (p ∷ ps) k h =
      arrive_all-same sig (arrive f (sig p) p) (arrive g (sig p) p) ps k (λ j. rw (h j) refl)

  -- What a registry shows of a series.
  abbrev gauge_in : Option (Accumulated M D) → Option (NumberPoint M D)
  gauge_in none = none
  gauge_in (some v) = gauge_point v.value.points

  abbrev pub latest_in : Registry M D → Str → Option (NumberPoint M D)
  latest_in reg k = gauge_in (lookup k reg)

module _ {M V D : Type 0} (attrs : AttributeMap M V) (type_string : MetricType → Str)
    (names : TypeNames type_string) (float : Float D) (s : Source M D) where
  abbrev Arrived : Registry M D → NumberPoint M D → Registry M D → Type 0
  Arrived reg p r =
      Kept attrs type_string names float r
      × ((k : Str)
          → latest_in r k
            ≡ arrive (latest_in reg) (signature attrs type_string float s p.attributes) p k)

  -- A round that refines the arrival of one point.
  abbrev Refines : Registry M D → NumberPoint M D → Step (Registry M D) → Type 0
  Refines reg p panic = ⊥
  Refines reg p (stop r) = ⊥
  Refines reg p skip = Arrived reg p reg
  Refines reg p (stored r) = Arrived reg p r

  latest_in-store :
      (sig k : Str) (p : NumberPoint M D) (reg : Registry M D)
      → latest_in (store attrs type_string float s sig (gauge (p ∷ [])) reg) k
        ≡ (if str_eq sig k then some p else latest_in reg k)
  unfolding store
  latest_in-store sig k p reg = elim (Bool-cases (str_eq sig k)) [
    | inl e ↦ rw (lookup-insert sig k (accumulated s (gauge (p ∷ []))) reg, e) refl
    | inr e ↦ rw (lookup-insert sig k (accumulated s (gauge (p ∷ []))) reg, e) refl
  ]

  module _ (ty : type_of s.metric.points ≡ gauge_type) (reg : Registry M D) (p : NumberPoint M D)
      (h : Kept attrs type_string names float reg) where
    abbrev sig_of : Str
    sig_of = signature attrs type_string float s p.attributes

    abbrev after : Registry M D
    after = store attrs type_string float s sig_of (gauge (p ∷ [])) reg

    -- A point that is not before what its series has, or is the first of it, is stored.
    store-Arrived : newest (latest_in reg sig_of) p ≡ p → Arrived reg p after
    store-Arrived new = (
      store-Kept attrs type_string names float s p.attributes (gauge (p ∷ [])) reg (one_gauge p)
          (sym ty) h,
      λ k. latest_in-store sig_of k p reg ∙ at k (str_eq sig_of k) refl,
    )
      where
        at :
            (k : Str) (b : Bool)
            → str_eq sig_of k ≡ b
            → (if str_eq sig_of k then some p else latest_in reg k)
              ≡ arrive (latest_in reg) sig_of p k
        at k true e =
            let same : sig_of ≡ k = (str_eq_iff sig_of k).0 e in
            let newer : newest (latest_in reg k) p ≡ p =
              ap (λ j. newest (latest_in reg j) p) (sym same) ∙ new in
            rw (e, newer) refl
        at k false e = rw e refl

    -- A point that is before what its series has changes nothing.
    skip-Arrived :
        (q : NumberPoint M D)
        → latest_in reg sig_of ≡ some q
        → before p.timestamp q.timestamp ≡ true
        → Arrived reg p reg
    skip-Arrived q l older = (h, λ k. at k (str_eq sig_of k) refl)
      where
        at :
            (k : Str) (b : Bool)
            → str_eq sig_of k ≡ b
            → latest_in reg k ≡ arrive (latest_in reg) sig_of p k
        at k true e =
            let same : sig_of ≡ k = (str_eq_iff sig_of k).0 e in
            let here : latest_in reg k ≡ some q = ap (λ j. latest_in reg j) (sym same) ∙ l in
            rw (e, here, older) refl
        at k false e = rw e refl

    gauge_step-Refines :
        p.no_recorded_value ≡ false → Refines reg p (gauge_step attrs type_string float s reg p)
    unfolding gauge_step
    gauge_step-Refines f = go (lookup sig_of reg) refl
      where
        go :
            (found : Option (Accumulated M D))
            → lookup sig_of reg ≡ found
            → Refines reg p (gauge_step attrs type_string float s reg p)
        go none l =
            let first : gauge_step attrs type_string float s reg p ≡ stored after =
              simp (f, l, gauge_step) in
            subst (Refines reg p) (sym first) (store-Arrived (ap (λ o. newest (gauge_in o) p) l))
        go (some v) l =
            let (single, same) =
              found-type attrs type_string names float s p.attributes v reg h l in
            let (q, g) = gauge_point-Single v.value.points single (same ∙ ty) in
            let held : latest_in reg sig_of ≡ some q = ap gauge_in l ∙ g in
            elim (Bool-cases (before p.timestamp q.timestamp)) [
              | inl o ↦
                  let skipped : gauge_step attrs type_string float s reg p ≡ skip =
                    simp (f, l, g, o, gauge_step) in
                  subst (Refines reg p) (sym skipped) (skip-Arrived q held o)
              | inr o ↦
                  let replaced : gauge_step attrs type_string float s reg p ≡ stored after =
                    simp (f, l, g, o, gauge_step) in
                  subst (Refines reg p) (sym replaced)
                    (store-Arrived (ap (λ x. newest x p) held ∙ rw o refl))
            ]

  -- The result of the loop shows the arrival of all points.
  abbrev pub RefinesAll : Registry M D → List (NumberPoint M D) → Option (Registry M D × ℕ) → Type 0
  RefinesAll reg ps none = ⊥
  RefinesAll reg ps (some (r, n)) =
      Kept attrs type_string names float r
      × ((k : Str)
          → latest_in r k
            ≡ arrive_all (λ p. signature attrs type_string float s p.attributes) (latest_in reg) ps
                k)

  later-RefinesAll :
      (reg r : Registry M D) (p : NumberPoint M D) (ps : List (NumberPoint M D))
      (o : Option (Registry M D × ℕ))
      → Arrived reg p r
      → RefinesAll r ps o
      → RefinesAll reg (p ∷ ps) o
  later-RefinesAll reg r p ps none a h = h
  later-RefinesAll reg r p ps (some (x, n)) a (kept, h) =
      let sig : NumberPoint M D → Str = λ q. signature attrs type_string float s q.attributes in
      (
        kept,
        λ k. h k ∙ arrive_all-same sig (latest_in r) (arrive (latest_in reg) (sig p) p) ps k a.1,
      )

  gauges-Refine :
      (n : ℕ) (ps : List (NumberPoint M D)) (reg : Registry M D)
      → type_of s.metric.points ≡ gauge_type
      → All (λ p. p.no_recorded_value ≡ false) ps
      → Kept attrs type_string names float reg
      → RefinesAll reg ps (each_point (gauge_step attrs type_string float s) reg n ps)
  unfolding each_point
  gauges-Refine n [] reg ty fs h = (h, λ k. refl)
  gauges-Refine n (p ∷ ps) reg ty (f, fs) h =
      go (gauge_step attrs type_string float s reg p) refl (gauge_step-Refines ty reg p h f)
        (λ r m k. gauges-Refine m ps r ty fs k)
    where
      go :
          (st : Step (Registry M D))
          → gauge_step attrs type_string float s reg p ≡ st
          → Refines reg p st
          → ((r : Registry M D) (m : ℕ)
              → Kept attrs type_string names float r
              → RefinesAll r ps (each_point (gauge_step attrs type_string float s) r m ps))
          → RefinesAll reg
              (p ∷ ps)
              (each_point (gauge_step attrs type_string float s) reg n (p ∷ ps))
      go panic e a ih = absurd a
      go (stop r) e a ih = absurd a
      go skip e a ih = rw (e, each_point) (later-RefinesAll reg reg p ps _ a (ih reg n a.0))
      go (stored r) e a ih = rw (e, each_point) (later-RefinesAll reg r p ps _ a (ih r (n + 1) a.0))

  -- The loop over the data points of a gauge, if all have a recorded value and the registry holds what
  -- its signatures say, does not panic, and refines a store that holds the latest point of each time
  -- series: after it, the registry shows under every signature the point with the greatest timestamp of
  -- the one that it showed before and those that arrived, and of equal ones the last to arrive.
  pub add_points-RefinesAll :
      (ps : List (NumberPoint M D)) (reg : Registry M D)
      → type_of s.metric.points ≡ gauge_type
      → All (λ p. p.no_recorded_value ≡ false) ps
      → Kept attrs type_string names float reg
      → RefinesAll reg ps (add_points attrs type_string float s (gauge ps) reg)
  unfolding add_points
  add_points-RefinesAll ps reg ty fs h = gauges-Refine 0 ps reg ty fs h
