-- ===== src/Kafka/Exporter/Push.antt =====
-- The pushers of the Kafka exporter, and the topic they push to.
use hypertrace_collector.Prelude.{
  ◌≡◌, ◌↔◌, refl, false, Option, none, some, List, [], ◌∷◌, is_empty, arith,
}
use hypertrace_collector.Pdata.Attributes.{AttributeMap}
use hypertrace_collector.Kafka.Message.{ProducerMessage}
use hypertrace_collector.Kafka.Config.{Config}
use hypertrace_collector.Kafka.Exporter.{
  Marshaler, marshal_with, Sent, delivered, producer_errors, send_failed, topic_of, get_topic,
  push_result, push_marshaled, push,
}

module _ {M V : Type 0} (attrs : AttributeMap M V) (cfg : Config) where
  topic_of-nonempty :
      (rs : List M) → is_empty cfg.topic ≡ false → is_empty (topic_of attrs cfg rs) ≡ false
  unfolding topic_of
  topic_of-nonempty [] h = h
  topic_of-nonempty (r ∷ rs) h = ground (arith, topic_of-nonempty rs h)

  -- The topic is never blank where the configured topic is not, whatever the attributes of the
  -- resources are.
  pub get_topic-nonempty :
      (rs : List M) → is_empty cfg.topic ≡ false → is_empty (get_topic attrs cfg rs) ≡ false
  unfolding get_topic
  get_topic-nonempty rs h = ground (arith, topic_of-nonempty rs h)

push_result_iff : {E : Type 0} (s : Sent E) → (push_result s ≡ none) ↔ (s ≡ delivered)
unfolding push_result
push_result_iff delivered = (λ _. refl, λ _. refl)
push_result_iff (producer_errors []) = (λ h. cc, λ h. cc)
push_result_iff (producer_errors (e ∷ es)) = (λ h. cc, λ h. cc)
push_result_iff (send_failed e) = (λ h. cc, λ h. cc)

-- What SendMessages is called with.
abbrev pub attempted : {E : Type 0} → List ProducerMessage × List E → Option (List ProducerMessage)
attempted (ms, []) = some ms
attempted (ms, e ∷ es) = none

push_marshaled_lem :
    {E : Type 0} (send : List ProducerMessage → Sent E) (r : List ProducerMessage × List E)
    → (((push_marshaled send r).1 ≡ none) ↔ ((r.1 ≡ []) × (send r.0 ≡ delivered)))
      × ((push_marshaled send r).0 ≡ attempted r)
unfolding push_marshaled
push_marshaled_lem send (ms, []) =
    ((λ e. (refl, (push_result_iff (send ms)).0 e), λ e. (push_result_iff (send ms)).1 e.1), refl)
push_marshaled_lem send (ms, e ∷ es) = ((λ x. cc, λ x. cc (x.0)), refl)

module _ {M V T E : Type 0} (attrs : AttributeMap M V) (resources : T → List M)
    (send : List ProducerMessage → Sent E) (cfg : Config) (m : Marshaler T E) (td : T) where
  -- What the marshaler returns for the topic of the telemetry.
  abbrev pub marshaled : List ProducerMessage × List E
  marshaled = marshal_with m td (get_topic attrs cfg (resources td))

  -- A pusher returns no error exactly when the marshaler returned none and SendMessages returned nil for
  -- its messages. It gives SendMessages all of the marshaler's messages, and does not call it when the
  -- marshaler returned an error.
  pub push_lem :
      (((push attrs resources send cfg m td).1 ≡ none)
        ↔ ((marshaled.1 ≡ []) × (send marshaled.0 ≡ delivered)))
      × ((push attrs resources send cfg m td).0 ≡ attempted marshaled)
  unfolding push
  push_lem = push_marshaled_lem send marshaled
