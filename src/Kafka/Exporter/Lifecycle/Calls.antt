-- ===== src/Kafka/Exporter/Lifecycle/Calls.antt =====
-- What an exporter does to its producers in a sequence of calls.
use hypertrace_collector.Prelude.{
  ◌≡◌, refl, ap, ◌⊎◌, inl, inr, Option, none, some, List, [], ◌∷◌, ◌++◌, map,
}
use hypertrace_collector.Pdata.Attributes.{AttributeMap}
use hypertrace_collector.Kafka.Message.{ProducerMessage}
use hypertrace_collector.Kafka.Exporter.{
  marshal_with, KafkaProducer, Sent, Sarama, StartError, get_topic, new_sarama_producer, start,
  close,
}
use hypertrace_collector.Kafka.Exporter.Push.{attempted}
use hypertrace_collector.Kafka.Exporter.Lifecycle.{
  push_held, push_to, Call, start_call, push_call, close_call, Effect, no_effect, opened, sent,
  closed, panicked, start_effect, push_effect, close_effect, step, run,
}

-- Where the producer that was opened last is `o`, if one was: messages are sent to it alone, it alone is
-- closed, and a call panics only where none was opened.
abbrev pub Follows : {P : Type 0} → Option P → List (Effect P) → Type 0
Follows o [] = Unit
Follows o (no_effect ∷ es) = Follows o es
Follows o (opened p ∷ es) = Follows (some p) es
Follows o (sent p messages ∷ es) = (o ≡ some p) × Follows o es
Follows o (closed p ∷ es) = (o ≡ some p) × Follows o es
Follows o (panicked ∷ es) = (o ≡ none) × Follows o es

-- The effect of a push where the marshaler returned `r` and the producer is `p`.
abbrev pub sent_to : {E P : Type 0} → P → List ProducerMessage × List E → Effect P
sent_to p r = elim (attempted r) [ none ↦ no_effect | some messages ↦ sent p messages ]

module _ {V T E P : Type 0} where
  -- The effect of a start that opened a producer holds for the exporter that it leaves.
  start-Follows :
      (s : Sarama V E P) (e : KafkaProducer T E P) (es : List (Effect P))
      → Follows (start s e).0.producer es
      → Follows e.producer (start_effect (start s e) ∷ es)
  unfolding start
  start-Follows s e es h = go (new_sarama_producer s e.cfg) refl
    where
      go :
          (r : StartError E ⊎ P)
          → new_sarama_producer s e.cfg ≡ r
          → Follows e.producer (start_effect (start s e) ∷ es)
      go (inl err) q = rw (start, q) (rw (start, q) at h)
      go (inr p) q = rw (start, q) (rw (start, q) at h)

module _ {E P : Type 0} where
  push_held-Follows :
      (send : P → List ProducerMessage → Sent E) (o : Option P) (r : List ProducerMessage × List E)
      (es : List (Effect P))
      → Follows o es
      → Follows o (push_effect (push_held send o r) ∷ es)
  unfolding push_held
  push_held-Follows send o (messages, x ∷ xs) es h = h
  push_held-Follows send none (messages, []) es h = (refl, h)
  push_held-Follows send (some p) (messages, []) es h = (refl, h)

  push_held-sent_to :
      (send : P → List ProducerMessage → Sent E) (p : P) (r : List ProducerMessage × List E)
      → push_effect (push_held send (some p) r) ≡ sent_to p r
  unfolding push_held
  push_held-sent_to send p (messages, []) = refl
  push_held-sent_to send p (messages, x ∷ xs) = refl

module _ {T E P : Type 0} where
  close_effect-closed :
      (e : KafkaProducer T E P) (p : P) → e.producer ≡ some p → close_effect e ≡ closed p
  unfolding close_effect close
  close_effect-closed e p h = rw (close_effect, h) refl

  close-Follows :
      (e : KafkaProducer T E P) (es : List (Effect P))
      → Follows e.producer es
      → Follows e.producer (close_effect e ∷ es)
  unfolding close_effect close
  close-Follows e es h = go e.producer refl
    where
      go : (o : Option P) → e.producer ≡ o → Follows e.producer (close_effect e ∷ es)
      go none q = rw (close_effect, q) (rw q at h)
      go (some p) q = rw (close_effect, q) (refl, rw q at h)

module _ {M V U T E P : Type 0} (attrs : AttributeMap M U) (resources : T → List M) where
  step-Follows :
      (e : KafkaProducer T E P) (c : Call V T E P) (es : List (Effect P))
      → Follows (step attrs resources e c).0.producer es
      → Follows e.producer ((step attrs resources e c).1 ∷ es)
  unfolding step push_to
  step-Follows e (start_call s) es h = start-Follows s e es h
  step-Follows e (push_call send td) es h =
      push_held-Follows send e.producer
        (marshal_with e.marshaler td (get_topic attrs e.cfg (resources td))) es h
  step-Follows e close_call es h = close-Follows e es h

  -- In every sequence of calls of an exporter, whatever sarama does in them, messages are sent to no
  -- other producer than the one that the exporter opened last, Close closes no other, and a call panics
  -- only where no start has succeeded: before the calls, or among them.
  pub run-Follows :
      (e : KafkaProducer T E P) (cs : List (Call V T E P))
      → Follows e.producer (run attrs resources e cs)
  unfolding run
  run-Follows e [] = tt
  run-Follows e (c ∷ cs) =
      step-Follows e c (run attrs resources (step attrs resources e c).0 cs)
        (run-Follows (step attrs resources e c).0 cs)

-- The calls of the pusher for telemetry, with what SendMessages does in each.
abbrev pub pushes :
    {V T E P : Type 0} → List ((P → List ProducerMessage → Sent E) × T) → List (Call V T E P)
pushes xs = map (λ x. push_call x.0 x.1) xs

module _ {M U T E P : Type 0} (attrs : AttributeMap M U) (resources : T → List M) where
  -- What the marshaler of an exporter returns.
  abbrev pub marshaled_by : KafkaProducer T E P → T → List ProducerMessage × List E
  marshaled_by e td = marshal_with e.marshaler td (get_topic attrs e.cfg (resources td))

  push-sent_to :
      (e : KafkaProducer T E P) (p : P) (send : P → List ProducerMessage → Sent E) (td : T)
      → e.producer ≡ some p
      → push_effect (push_to attrs send e td (resources td)) ≡ sent_to p (marshaled_by e td)
  unfolding push_to
  push-sent_to e p send td h = cc (push_held-sent_to send p (marshaled_by e td))

  run-pushes :
      (V : Type 0) (e : KafkaProducer T E P) (p : P)
      (xs : List ((P → List ProducerMessage → Sent E) × T))
      → e.producer ≡ some p
      → run attrs resources e (pushes {V = V} xs ++ close_call ∷ [])
        ≡ map (λ x. sent_to p (marshaled_by e (x.1))) xs ++ closed p ∷ []
  unfolding run step
  run-pushes V e p [] h = ap (λ x. x ∷ []) (close_effect-closed e p h)
  run-pushes V e p ((send, td) ∷ xs) h = cc (push-sent_to e p send td h, run-pushes V e p xs h)

  -- An exporter whose start opens the producer p and that then pushes and is closed opens p, gives it for
  -- each push all the messages that the marshaler returns, or nothing where the marshaler fails, in the
  -- order of the pushes, and closes it, whatever SendMessages returns.
  pub run-lifecycle :
      {V : Type 0} (s : Sarama V E P) (e : KafkaProducer T E P) (p : P)
      (xs : List ((P → List ProducerMessage → Sent E) × T))
      → new_sarama_producer s e.cfg ≡ inr p
      → run attrs resources e (start_call s ∷ (pushes xs ++ close_call ∷ []))
        ≡ opened p ∷ (map (λ x. sent_to p (marshaled_by e (x.1))) xs ++ closed p ∷ [])
  unfolding run step start
  run-lifecycle {V = V} s e p xs h =
      let started : KafkaProducer T E P = record e { producer = some p } in
      simp (start, h) (ap (λ es. opened p ∷ es) (run-pushes V started p xs refl))
