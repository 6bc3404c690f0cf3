-- ===== src/Prometheus/Exporter/Calls.antt =====
-- Any sequence of calls of ConsumeMetrics and of Collect.
use hypertrace_collector.Prelude.{
  ℕ, ◌+◌, ◌≡◌, refl, ◌⊎◌, inl, inr, Option, none, some, List, [], ◌∷◌, Str, Bool-cases,
}
use hypertrace_collector.Prelude.All.{All}
use hypertrace_collector.Pdata.Attributes.{AttributeMap}
use hypertrace_collector.Pdata.Metrics.{Metric, Metrics}
use hypertrace_collector.Prometheus.Signature.{MetricType}
use hypertrace_collector.Prometheus.Histogram.{Float}
use hypertrace_collector.Prometheus.LastValues.{Registry}
use hypertrace_collector.Prometheus.Accumulator.{accumulate, collect, expired}
use hypertrace_collector.Prometheus.Accumulator.Kept.{TypeNames}
use hypertrace_collector.Prometheus.Accumulator.Safe.{Ends, Kept}
use hypertrace_collector.Prometheus.Accumulator.Whole.{WellFormedScopes, accumulate-Kept}
use hypertrace_collector.Prometheus.Convert.{Collector, Accessors, Translator, Client}
use hypertrace_collector.Prometheus.Convert.Collected.{Converts, collect-Converts}
use hypertrace_collector.Prometheus.Exporter.{consume_resources, consume_metrics, run_calls}

-- The histogram points of a batch, and of all batches of the calls, have one bucket more than bounds.
abbrev pub WellFormedBatch : {M D : Type 0} → Metrics M D → Type 0
WellFormedBatch md = All (λ rm. WellFormedScopes rm.scopes) md

abbrev pub WellFormedCalls : {M D : Type 0} → List (((ℕ → ℕ) × Metrics M D) ⊎ ℕ) → Type 0
WellFormedCalls [] = Unit
WellFormedCalls (inl (clock, md) ∷ calls) = WellFormedBatch md × WellFormedCalls calls
WellFormedCalls (inr now ∷ calls) = WellFormedCalls calls

module _ {M V D : Type 0} (attrs : AttributeMap M V) (type_string : MetricType → Str)
    (names : TypeNames type_string) (float : Float D) where
  consume_resources-Kept :
      (clock : ℕ → ℕ) (i : ℕ) (md : Metrics M D) (reg : Registry M D) (n : ℕ)
      → WellFormedBatch md
      → Kept attrs type_string names float reg
      → Ends
          (Kept attrs type_string names float)
          (consume_resources attrs type_string float clock i md reg n)
  unfolding consume_resources
  consume_resources-Kept clock i [] reg n w h = h
  consume_resources-Kept clock i (rm ∷ md) reg n (w, ws) h =
      go (accumulate attrs type_string float (clock i) rm reg) refl
        (accumulate-Kept attrs type_string names float (clock i) rm reg w h)
        (λ r k held. consume_resources-Kept clock (i + 1) md r k ws held)
    where
      go :
          (o : Option (Registry M D × ℕ))
          → accumulate attrs type_string float (clock i) rm reg ≡ o
          → Ends (Kept attrs type_string names float) o
          → ((r : Registry M D) (k : ℕ)
              → Kept attrs type_string names float r
              → Ends
                  (Kept attrs type_string names float)
                  (consume_resources attrs type_string float clock (i + 1) md r k))
          → Ends
              (Kept attrs type_string names float)
              (consume_resources attrs type_string float clock i (rm ∷ md) reg n)
      go none e f ih = absurd f
      go (some (r, k)) e f ih = rw (e, consume_resources) (ih r (n + k) f)

  consume_metrics-Kept :
      (clock : ℕ → ℕ) (md : Metrics M D) (reg : Registry M D)
      → WellFormedBatch md
      → Kept attrs type_string names float reg
      → (reg' : Registry M D) × (consume_metrics attrs type_string float clock md reg ≡ some reg')
        × Kept attrs type_string names float reg'
  unfolding consume_metrics
  consume_metrics-Kept clock md reg w h =
      go (consume_resources attrs type_string float clock 0 md reg 0) refl
        (consume_resources-Kept clock 0 md reg 0 w h)
    where
      go :
          (o : Option (Registry M D × ℕ))
          → consume_resources attrs type_string float clock 0 md reg 0 ≡ o
          → Ends (Kept attrs type_string names float) o
          → (reg' : Registry M D) × (consume_metrics attrs type_string float clock md reg
              ≡ some reg')
            × Kept attrs type_string names float reg'
      go none e f = absurd f
      go (some (r, k)) e f = (r, rw (e, consume_metrics) refl, f)

  collect-Kept :
      (now expiration : ℕ) (reg : Registry M D)
      → Kept attrs type_string names float reg
      → Kept attrs type_string names float (collect now expiration reg).0
  unfolding collect
  collect-Kept now expiration [] h = tt
  collect-Kept now expiration ((sig, v) ∷ reg) (h, hs) =
      elim (Bool-cases (expired now expiration v)) [
        | inl e ↦ rw e (collect-Kept now expiration reg hs)
        | inr e ↦ rw e (h, collect-Kept now expiration reg hs)
      ]

  module _ {P E : Type 0} (translator : Translator M D) (accessors : Accessors M D)
      (client : Client D P E) (c : Collector) (expiration : ℕ) where
    -- The calls end without a panic, and so does the conversion of every metric of every scrape.
    abbrev pub Scrapes : Option (Registry M D × List (List (Metric M D × M))) → Type 0
    Scrapes none = ⊥
    Scrapes (some (last, outs)) =
        All (λ out. All (λ mr. Converts attrs float translator accessors client c mr.0 mr.1) out)
          outs

    run_calls-Kept :
        (calls : List (((ℕ → ℕ) × Metrics M D) ⊎ ℕ)) (reg : Registry M D)
        → WellFormedCalls calls
        → Kept attrs type_string names float reg
        → Scrapes (run_calls attrs type_string float expiration calls reg)
    unfolding run_calls
    run_calls-Kept [] reg w h = tt
    run_calls-Kept (inl (clock, md) ∷ calls) reg (w, ws) h =
        let (reg', e, h') = consume_metrics-Kept clock md reg w h in
        rw (e, run_calls) (run_calls-Kept calls reg' ws h')
    run_calls-Kept (inr now ∷ calls) reg w h =
        go (run_calls attrs type_string float expiration calls (collect now expiration reg).0) refl
          (run_calls-Kept calls (collect now expiration reg).0 w
            (collect-Kept now expiration reg h))
      where
        go :
            (o : Option (Registry M D × List (List (Metric M D × M))))
            → run_calls attrs type_string float expiration calls (collect now expiration reg).0 ≡ o
            → Scrapes o
            → Scrapes (run_calls attrs type_string float expiration (inr now ∷ calls) reg)
        go none e f = absurd f
        go (some (last, outs)) e f =
            rw (run_calls, e)
              (
                collect-Converts attrs float translator accessors client c type_string names now
                    expiration reg h,
                f,
              )

    -- From an empty registry, any sequence of calls of ConsumeMetrics and Collect ends without a panic, if the
    -- histogram points that arrive have one bucket more than bounds. The conversion of every metric of every
    -- scrape does not panic and does not fail on the metric's type: it makes a metric, or it ends with an error
    -- that a call of the client library returned.
    pub run_calls-Scrapes :
        (calls : List (((ℕ → ℕ) × Metrics M D) ⊎ ℕ))
        → WellFormedCalls calls
        → Scrapes (run_calls attrs type_string float expiration calls [])
    run_calls-Scrapes calls w = run_calls-Kept calls [] w tt
