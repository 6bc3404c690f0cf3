-- ===== src/Kafka/Marshalers/Keys.antt =====
-- The keys of the messages of the pdata marshalers.
use hypertrace_collector.Prelude.{
  ◌≡◌, refl, ◌⊎◌, inl, inr, Bool, true, false, Option, none, some, List, [], ◌∷◌, Str, ap₂, ◌∙◌,
  if◌then◌else◌, arith,
}
use hypertrace_collector.Pdata.Metrics.{Metrics}
use hypertrace_collector.Kafka.Message.{Bytes, ProducerMessage}
use hypertrace_collector.Kafka.Marshalers.{
  marshal_whole, marshal_parts, one_by_one, part_hash, marshal_metrics,
}

-- The keys and the values of messages.
abbrev pub keys : List ProducerMessage → List (Option Bytes)
keys [] = []
keys (m ∷ ms) = m.key ∷ keys ms

module _ {T E : Type 0} (marshal : T → E ⊎ Bytes) (key_of : T → Bytes) (topic : Str) where
  abbrev part_keys : List T → List (Option Bytes)
  part_keys [] = []
  part_keys (t ∷ ts) = some (key_of t) ∷ part_keys ts

  -- Every part has its message.
  keys-parts :
      (ts : List T) (msgs : List ProducerMessage)
      → marshal_parts marshal key_of topic ts ≡ inr msgs
      → keys msgs ≡ part_keys ts
  unfolding marshal_parts
  keys-parts [] msgs h = ground (arith, h)
  keys-parts (t ∷ ts) msgs h =
      go (marshal t) (marshal_parts marshal key_of topic ts) refl refl (λ ms p. keys-parts ts ms p)
    where
      go :
          (r : E ⊎ Bytes) (rest : E ⊎ List ProducerMessage)
          → marshal t ≡ r
          → marshal_parts marshal key_of topic ts ≡ rest
          → ((ms : List ProducerMessage)
              → marshal_parts marshal key_of topic ts ≡ inr ms
              → keys ms ≡ part_keys ts)
          → keys msgs ≡ part_keys (t ∷ ts)
      go (inl e) rest p q ih = cc (rw (p, marshal_parts) at h)
      go (inr b) (inl e) p q ih = cc (rw (p, q, marshal_parts) at h)
      go (inr b) (inr ms) p q ih = ground (arith, ih ms q, rw (p, q, marshal_parts) at h)

module _ {M D E : Type 0} (marshal : Metrics M D → E ⊎ Bytes) (map_hash : M → Bytes)
    (topic : Str) where
  -- The keys of the messages for a batch of metrics.
  abbrev metric_keys : Metrics M D → List (Option Bytes)
  metric_keys [] = []
  metric_keys (r ∷ rs) = some (map_hash r.resource) ∷ metric_keys rs

  part_keys-one_by_one :
      (md : Metrics M D)
      → part_keys marshal (part_hash map_hash) topic (one_by_one md) ≡ metric_keys md
  part_keys-one_by_one [] = refl
  part_keys-one_by_one (r ∷ rs) = ap₂ ◌∷◌ refl (part_keys-one_by_one rs)

  -- Where the metrics marshaler succeeds, it returns one message for each resource, under the hash of the
  -- resource's attributes and in their order, if it is keyed, and one message without a key if it is
  -- not.
  pub marshal_metrics-keys :
      (keyed : Bool) (md : Metrics M D) (msgs : List ProducerMessage)
      → marshal_metrics marshal map_hash keyed topic md ≡ inr msgs
      → keys msgs ≡ (if keyed then metric_keys md else none ∷ [])
  unfolding marshal_metrics marshal_whole
  marshal_metrics-keys true md msgs h =
      keys-parts marshal (part_hash map_hash) topic (one_by_one md) msgs h ∙ part_keys-one_by_one md
  marshal_metrics-keys false md msgs h = go (marshal md) refl
    where
      go : (r : E ⊎ Bytes) → marshal md ≡ r → keys msgs ≡ none ∷ []
      go (inl e) p = cc (rw (p, marshal_metrics, marshal_whole) at h)
      go (inr b) p = ground (arith, rw (p, marshal_metrics, marshal_whole) at h)
