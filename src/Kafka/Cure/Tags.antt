-- ===== src/Kafka/Cure/Tags.antt =====
-- What truncation leaves of a span's tags.
use hypertrace_collector.Prelude.{
  ℕ, ◌≤◌, ◌≡◌, refl, ◌∙◌, ap₂, List, [], ◌∷◌, ◌++◌, map, map-append, Str, length, length-take,
  arith,
}
use hypertrace_collector.Prelude.All.{All, All-append, All-map}
use hypertrace_collector.Kafka.Span.{string_type, binary_type, KeyValue}
use hypertrace_collector.Kafka.Truncate.{exceeds, truncate_tag, truncated_keys, truncate_tags, mark}

module _ {D : Type 0} where
  -- The length of the value that the type of a tag tells, if it is a string or binary.
  abbrev pub value_length : KeyValue D → ℕ
  value_length kv = elim kv.v_type [
    | string_type ↦ length kv.v_str
    | binary_type ↦ length kv.v_binary
    | _ ↦ 0
  ]

  -- A string or binary value is at most as long as the size.
  abbrev pub Within : ℕ → KeyValue D → Type 0
  Within size kv = value_length kv ≤ size

  truncate_tag-Within : (size : ℕ) (kv : KeyValue D) → Within size (truncate_tag size kv)
  unfolding truncate_tag exceeds
  truncate_tag-Within size kv =
      ground (arith, length-take size kv.v_str, length-take size kv.v_binary)

  -- A truncated tag has its key, its type, and a prefix of its value; a tag that does not exceed the
  -- size is left as it is.
  truncate_tag-key : (size : ℕ) (kv : KeyValue D) → (truncate_tag size kv).key ≡ kv.key
  unfolding truncate_tag
  truncate_tag-key size kv = ground arith

  truncate_tag-type : (size : ℕ) (kv : KeyValue D) → (truncate_tag size kv).v_type ≡ kv.v_type
  unfolding truncate_tag
  truncate_tag-type size kv = ground arith

  module _ (zero_float : D) where
    -- After a round, every string or binary value of a tag is at most as long as the size of the round.
    pub truncate_tags-Within :
        (size : ℕ) (seen : List Str) (tags : List (KeyValue D))
        → All (Within size) (truncate_tags zero_float size seen tags)
    unfolding truncate_tags
    truncate_tags-Within size seen tags =
        All-append (Within size) (map (truncate_tag size) tags) _
          (All-map (Within size) (truncate_tag size) tags (truncate_tag-Within size))
          (All-map (Within size) (mark zero_float) (truncated_keys size seen tags)
            (λ k. omega arith))

    -- A round keeps the tags in their order and under their keys, and appends the marks.
    keys-truncate_tags :
        (size : ℕ) (seen : List Str) (tags : List (KeyValue D))
        → map (λ kv. kv.key) (truncate_tags zero_float size seen tags)
          ≡ map (λ kv. kv.key) tags ++ truncated_keys size seen tags
    unfolding truncate_tags
    keys-truncate_tags size seen tags =
        map-append (λ kv. kv.key) (map (truncate_tag size) tags) _
        ∙ ap₂ ◌++◌ (keys-map tags) (keys-marks (truncated_keys size seen tags))
      where
        keys-map :
            (kvs : List (KeyValue D))
            → map (λ kv. kv.key) (map (truncate_tag size) kvs) ≡ map (λ kv. kv.key) kvs
        keys-map [] = refl
        keys-map (kv ∷ kvs) = ap₂ ◌∷◌ (truncate_tag-key size kv) (keys-map kvs)

        keys-marks : (ks : List Str) → map (λ kv. kv.key) (map (mark zero_float) ks) ≡ ks
        keys-marks [] = refl
        keys-marks (k ∷ ks) = ap₂ ◌∷◌ refl (keys-marks ks)
