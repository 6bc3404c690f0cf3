-- ===== src/Kafka/Cure/Marks.antt =====
-- The marks that the truncation in cureSpan appends.
use hypertrace_collector.Prelude.{
  ℕ, ◌≡◌, refl, true, false, ◌||◌, List, [], ◌∷◌, ◌++◌, Str, str_eq, str_eq_iff, arith,
}
use hypertrace_collector.Kafka.Span.{KeyValue}
use hypertrace_collector.Kafka.Truncate.{contains, truncated_keys, truncation_tag_suffix}

abbrev Distinct : List Str → Type 0
Distinct [] = Unit
Distinct (k ∷ ks) = (contains k ks ≡ false) × Distinct ks

contains-cons : (k x : Str) (xs : List Str) → contains k (x ∷ xs) ≡ (str_eq x k || contains k xs)
unfolding contains
contains-cons k x xs = refl

module _ {D : Type 0} (size : ℕ) where
  -- A key that was seen before is not marked.
  truncated_keys-unseen :
      (seen : List Str) (tags : List (KeyValue D)) (k : Str)
      → contains k seen ≡ true
      → contains k (truncated_keys size seen tags) ≡ false
  unfolding truncated_keys
  truncated_keys-unseen seen [] k h = unfold contains in refl
  truncated_keys-unseen seen (kv ∷ kvs) k h =
      let m = kv.key ++ truncation_tag_suffix in
      ground (
        arith,
        truncated_keys-unseen seen kvs k,
        truncated_keys-unseen (m ∷ seen) kvs k,
        contains-cons k m seen,
        contains-cons k m (truncated_keys size (m ∷ seen) kvs),
        str_eq_iff m k,
      )

  -- The marks that one round of truncation appends are all different, also where several tags with the
  -- same key are truncated.
  truncated_keys-Distinct :
      (seen : List Str) (tags : List (KeyValue D)) → Distinct (truncated_keys size seen tags)
  unfolding truncated_keys
  truncated_keys-Distinct seen [] = tt
  truncated_keys-Distinct seen (kv ∷ kvs) =
      let m = kv.key ++ truncation_tag_suffix in
      ground (
        arith,
        truncated_keys-Distinct seen kvs,
        truncated_keys-Distinct (m ∷ seen) kvs,
        truncated_keys-unseen (m ∷ seen) kvs m,
        contains-cons m m seen,
        str_eq_iff m m,
      )
