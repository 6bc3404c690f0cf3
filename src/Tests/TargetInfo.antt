-- ===== src/Tests/TargetInfo.antt =====
-- The Prometheus collector's buckets and target info at concrete inputs.
use hypertrace_collector.Prelude.{
  ℕ, ◌+◌, ◌≡◌, refl, false, some, [], ◌∷◌, Str, str, is_empty, ltb, ◌==◌, arith,
}
use hypertrace_collector.Prelude.GoMap.{GoMap}
use hypertrace_collector.Pdata.Attributes.{attribute_service_name, attribute_service_instance_id}
use hypertrace_collector.Prometheus.Histogram.{Float}
use hypertrace_collector.Prometheus.Buckets.{bucket_points}
use hypertrace_collector.Prometheus.Buckets.Cumulative.{bucket_points-running}
use hypertrace_collector.Prometheus.TargetInfo.{seen, deduplicate}
use hypertrace_collector.Prometheus.TargetInfo.Resources.{Unique, signatures, deduplicate_lem}
use hypertrace_collector.Tests.Sample.{attrs}

abbrev float : Float ℕ
float = record { add = λ a b. a + b; eq = λ a b. a == b; lt = λ a b. ltb a b; zero = 0 }

bucket_points-running_example :
    bucket_points float (10 ∷ 20 ∷ []) (3 ∷ 4 ∷ 5 ∷ []) ≡ some ((10, 3) ∷ (20, 7) ∷ [])
bucket_points-running_example =
    bucket_points-running float (10 ∷ 20 ∷ []) (3 ∷ 4 ∷ 5 ∷ [])
      (refl, ((refl, refl), tt), (refl, tt, tt)) (ground arith)

-- A repeated bound is one bucket, and the bounds are sorted.
repeated : bucket_points float (20 ∷ 10 ∷ 20 ∷ []) (3 ∷ 4 ∷ 5 ∷ []) ≡ some ((10, 4) ∷ (20, 7) ∷ [])
unfolding bucket_points
repeated = refl

abbrev web : GoMap Str
web =
    (attribute_service_name, str "web")
    ∷ (attribute_service_instance_id, str "1")
    ∷ (str "job", str "x")
    ∷ []

abbrev normalize : Str → Str
normalize s = s

deduplicate_lem_example :
    Unique (signatures attrs (deduplicate attrs [] (web ∷ web ∷ [])))
    × ((s : Str)
        → is_empty s ≡ false
        → seen s (signatures attrs (deduplicate attrs [] (web ∷ web ∷ [])))
          ≡ seen s (signatures attrs (web ∷ web ∷ [])))
deduplicate_lem_example = deduplicate_lem attrs (web ∷ web ∷ [])
