-- ===== src/Kafka/Cure/Logs.antt =====
-- The log entries that cutSpanLogsByHalf keeps (exporter/kafkaexporter/jaeger_marshaler_curer.go).
use hypertrace_collector.Prelude.{
  ℕ, zero, suc, ◌+◌, ◌/◌, ◌%◌, ◌≡◌, refl, List, [], ◌∷◌, length, get_elem?, arith,
}
use hypertrace_collector.Kafka.Truncate.{cut_span_logs_by_half}

module _ {ℓ} {L : Type ℓ} where
  -- Half as many entries are left, rounded up, as `newSize` is computed.
  length-cut_span_logs_by_half :
      (xs : List L) → length (cut_span_logs_by_half xs) ≡ length xs / 2 + length xs % 2
  unfolding cut_span_logs_by_half
  length-cut_span_logs_by_half [] = refl
  length-cut_span_logs_by_half (x ∷ []) = refl
  length-cut_span_logs_by_half (x ∷ y ∷ rest) = omega (arith, length-cut_span_logs_by_half rest)

  -- The entry at `i` is the original's at `2 * i`.
  get_elem?-cut_span_logs_by_half :
      (xs : List L) (i : ℕ) → get_elem? (cut_span_logs_by_half xs) i ≡ get_elem? xs (i + i)
  unfolding cut_span_logs_by_half
  get_elem?-cut_span_logs_by_half [] i = refl
  get_elem?-cut_span_logs_by_half (x ∷ []) zero = refl
  get_elem?-cut_span_logs_by_half (x ∷ []) (suc i) =
      let e : suc i + suc i ≡ suc (suc (i + i)) = omega arith in rw e
  get_elem?-cut_span_logs_by_half (x ∷ y ∷ rest) zero = refl
  get_elem?-cut_span_logs_by_half (x ∷ y ∷ rest) (suc i) =
      let e : suc i + suc i ≡ suc (suc (i + i)) = omega arith in
      rw e (get_elem?-cut_span_logs_by_half rest i)

  -- Of n log entries, the cut leaves n / 2 + n % 2, and the entry that is left at each index i is the one
  -- that was at 2 * i.
  pub cut_span_logs_by_half_lem :
      (xs : List L) (i : ℕ)
      → (length (cut_span_logs_by_half xs) ≡ length xs / 2 + length xs % 2)
        × (get_elem? (cut_span_logs_by_half xs) i ≡ get_elem? xs (i + i))
  cut_span_logs_by_half_lem xs i =
      (length-cut_span_logs_by_half xs, get_elem?-cut_span_logs_by_half xs i)
