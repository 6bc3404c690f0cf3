-- ===== src/Kafka/Truncate.antt =====
-- The rounds of cureSpan and cureSpanLogs (exporter/kafkaexporter/jaeger_marshaler_curer.go): the
-- truncation of a span's tags to a size, and the halving of its logs.
use hypertrace_collector.Prelude.{
  ℕ, Bool, true, false, not, ◌&&◌, ◌||◌, List, [], ◌∷◌, ◌++◌, map, Str, str, str_eq, length, take,
  ltb, if◌then◌else◌,
}
use hypertrace_collector.Kafka.Span.{string_type, binary_type, bool_type, KeyValue}

-- suffix of the attributes that mark a truncated value
abbrev pub truncation_tag_suffix : Str
unfolding str
truncation_tag_suffix = str ".htcollector.truncated"

abbrev pub span_logs_truncation_tag_name : Str
unfolding str
span_logs_truncation_tag_name = str "htcollector.spanlogstruncated"

-- `truncatedKeysSoFar[k]`
unfoldable pub contains : Str → List Str → Bool
contains k [] = false
contains k (x ∷ xs) = str_eq x k || contains k xs

module _ {D : Type 0} where
  -- The test of the first loop.
  unfoldable pub exceeds : ℕ → KeyValue D → Bool
  exceeds size kv = elim kv.v_type [
    | string_type ↦ ltb size (length kv.v_str)
    | binary_type ↦ ltb size (length kv.v_binary)
    | _ ↦ false
  ]

  -- The body of the second loop, for a tag whose index was collected.
  unfoldable truncate_value : ℕ → KeyValue D → KeyValue D
  truncate_value size kv = elim kv.v_type [
    | string_type ↦ record kv { v_str = take size kv.v_str }
    | binary_type ↦ record kv { v_binary = take size kv.v_binary }
    | _ ↦ kv
  ]

  unfoldable pub truncate_tag : ℕ → KeyValue D → KeyValue D
  unfolding exceeds truncate_value
  truncate_tag size kv = if exceeds size kv then truncate_value size kv else kv

  -- `truncatedKeys`: the marks of the tags that are truncated in this round, without those that were
  -- seen before.
  unfoldable pub truncated_keys : ℕ → List Str → List (KeyValue D) → List Str
  unfolding contains exceeds
  truncated_keys size seen [] = []
  truncated_keys size seen (kv ∷ kvs) =
      let k = kv.key ++ truncation_tag_suffix in
      let fresh = exceeds size kv && not (contains k seen) in
      let rest = truncated_keys size (if fresh then k ∷ seen else seen) kvs in
      if fresh then k ∷ rest else rest

  -- `jaegerproto.KeyValue{Key: k, VType: BOOL, VBool: true}`, with the zero float64.
  abbrev pub mark : D → Str → KeyValue D
  mark zero_float k = record {
    key = k;
    v_type = bool_type;
    v_str = [];
    v_bool = true;
    v_int64 = 0;
    v_float64 = zero_float;
    v_binary = [];
  }

  -- The tags after one round.
  unfoldable pub truncate_tags : D → ℕ → List Str → List (KeyValue D) → List (KeyValue D)
  unfolding truncate_tag truncated_keys
  truncate_tags zero_float size seen tags =
      map (truncate_tag size) tags ++ map (mark zero_float) (truncated_keys size seen tags)

-- cutSpanLogsByHalf: the entries with an even index.
unfoldable pub cut_span_logs_by_half {ℓ} : {L : Type ℓ} → List L → List L
cut_span_logs_by_half [] = []
cut_span_logs_by_half (x ∷ []) = x ∷ []
cut_span_logs_by_half (x ∷ y ∷ rest) = x ∷ cut_span_logs_by_half rest
