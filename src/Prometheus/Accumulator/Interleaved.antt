-- ===== src/Prometheus/Accumulator/Interleaved.antt =====
-- exporter/prometheusexporter/accumulator.go when several calls run at once: a round of a loop over data
-- points makes one access of the sync.Map that reads, Load, and one that writes, Store or Delete, and
-- between the two other goroutines may change the map. The round of every type is of this form.
pub mod Serial
pub mod Rounds
pub mod Both
pub mod Series
use hypertrace_collector.Prelude.{◌≡◌, Bool, ◌==◌, Option, none, some, [], ◌∷◌, Str, if◌then◌else◌}
use hypertrace_collector.Prelude.GoMap.{lookup, insert, erase}
use hypertrace_collector.Pdata.Metrics.{
  Temporality, unspecified, delta, cumulative, HistogramPoint, histogram, NumberPoint, SummaryPoint,
  Points, gauge, sum, summary,
}
use hypertrace_collector.Prometheus.Histogram.{Float, before, accumulate_histogram_values}
use hypertrace_collector.Prometheus.LastValues.{
  Accumulated, Registry, Step, panic, stop, skip, stored, gauge_point, sum_point, summary_point,
  histogram_point, to_cumulative,
}
use hypertrace_collector.Prometheus.Accumulator.{Source, accumulated}

-- What a round does after its Load: it panics, leaves the map as it is, or stores points.
pub data Decision (M D : Type 0) : Type 0 where
  crash : Decision M D
  keep : Decision M D
  put : Points M D → Decision M D

-- Where a round is: before its first access, or after a Load that returned a value or none, or done.
pub data Round (M D : Type 0) : Type 0 where
  loading : Round M D
  storing : Option (Accumulated M D) → Round M D
  over : Round M D

module _ {M D : Type 0} where
  -- The decision for the value that Load found: `point` reads its data point, `first` is stored where no value
  -- was found, and `update` decides for the point that was read.
  abbrev pub decide_point :
      {P : Type 0}
      → (Points M D → Option P)
      → Points M D
      → (P → Decision M D)
      → Option (Accumulated M D)
      → Decision M D
  decide_point point first update none = put first
  decide_point point first update (some v) = elim (point v.value.points) [
    | none ↦ crash
    | some q ↦ update q
  ]

  abbrev pub keep_old : Bool → Points M D → Decision M D
  keep_old old ps = if old then keep else put ps

  abbrev pub decide_gauge : NumberPoint M D → Option (Accumulated M D) → Decision M D
  decide_gauge p =
      decide_point gauge_point (gauge (p ∷ []))
        (λ q. keep_old (before p.timestamp q.timestamp) (gauge (p ∷ [])))

  abbrev pub decide_summary : SummaryPoint M D → Option (Accumulated M D) → Decision M D
  decide_summary p =
      decide_point summary_point (summary (p ∷ []))
        (λ q. keep_old (before p.timestamp q.timestamp) (summary (p ∷ [])))

  abbrev pub decide_sum :
      Float D → Temporality → Bool → NumberPoint M D → Option (Accumulated M D) → Decision M D
  decide_sum float t monotonic p = decide_point sum_point (sum cumulative monotonic (p ∷ [])) (λ q.
      keep_old (before p.timestamp q.timestamp)
        (sum cumulative monotonic (to_cumulative float t q p ∷ [])))

  abbrev pub merged : Option (HistogramPoint M D) → Decision M D
  merged none = crash
  merged (some r) = put (histogram cumulative (r ∷ []))

  abbrev pub decide_histogram_update :
      Float D → Temporality → HistogramPoint M D → HistogramPoint M D → Decision M D
  decide_histogram_update float delta p q =
      if p.start_timestamp == q.timestamp
      then merged (accumulate_histogram_values float q p)
      else if before q.timestamp p.start_timestamp
      then put (histogram cumulative (p ∷ []))
      else keep
  decide_histogram_update float cumulative p q =
      keep_old (before p.timestamp q.timestamp) (histogram cumulative (p ∷ []))
  decide_histogram_update float unspecified p q = keep

  abbrev pub decide_histogram :
      Float D → Temporality → HistogramPoint M D → Option (Accumulated M D) → Decision M D
  decide_histogram float t p =
      decide_point histogram_point (histogram cumulative (p ∷ []))
        (decide_histogram_update float t p)

  -- The registry after a round that began with `reg`.
  abbrev pub left_by : Registry M D → Step (Registry M D) → Registry M D
  left_by reg panic = reg
  left_by reg (stop r) = r
  left_by reg skip = reg
  left_by reg (stored r) = r

-- The round of a data point with the signature `sig`, which has no recorded value if `ends`.
module _ {M D : Type 0} (s : Source M D) (sig : Str) (ends : Bool)
    (decide : Option (Accumulated M D) → Decision M D) where
  abbrev pub written : Registry M D → Decision M D → Option (Registry M D × Round M D)
  written reg crash = none
  written reg keep = some (reg, over)
  written reg (put ps) = some (insert sig (accumulated s ps) reg, over)

  -- The next access of the round; none where it panics or is done.
  unfoldable pub next : Registry M D → Round M D → Option (Registry M D × Round M D)
  unfolding lookup insert erase
  next reg loading =
      if ends then some (erase sig reg, over) else some (reg, storing (lookup sig reg))
  next reg (storing found) = written reg (decide found)
  next reg over = none

  -- The registry and the round after accesses of the round, and changes by others that leave the value of
  -- its signature.
  pub data Interleaved (begin : Registry M D) : Registry M D → Round M D → Type 0 where
    begun : Interleaved begin begin loading
    moved :
        {a b : Registry M D} {x y : Round M D}
        → Interleaved begin a x
        → next a x ≡ some (b, y)
        → Interleaved begin b y
    others :
        {a b : Registry M D} {x : Round M D}
        → Interleaved begin a x
        → lookup sig b ≡ lookup sig a
        → Interleaved begin b x

module _ {M D : Type 0} where
  -- Two rounds that run at once, and where they are: one access at a time, in any order.
  pub data Concurrent (first second : Registry M D → Round M D → Option (Registry M D × Round M D))
      (begin : Registry M D) : Registry M D → Round M D → Round M D → Type 0 where
    both_begun : Concurrent first second begin begin loading loading
    first_moved :
        {a b : Registry M D} {x x' y : Round M D}
        → Concurrent first second begin a x y
        → first a x ≡ some (b, x')
        → Concurrent first second begin b x' y
    second_moved :
        {a b : Registry M D} {x y y' : Round M D}
        → Concurrent first second begin a x y
        → second a y ≡ some (b, y')
        → Concurrent first second begin b x y'
