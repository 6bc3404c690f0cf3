-- ===== src/Kafka/Marshalers/Raw.antt =====
-- rawMarshaler.Marshal against a description of its result.
use hypertrace_collector.Prelude.{
  ◌≡◌, refl, ◌∙◌, ap, ◌⊎◌, inl, inr, List, [], ◌∷◌, ◌++◌, map, append_assoc, Str, is_empty,
  if◌then◌else◌,
}
use hypertrace_collector.Kafka.Message.{Bytes, ProducerMessage}
use hypertrace_collector.Kafka.Marshalers.{
  Body, Any, RawError, ScopeLogs, ResourceLogs, prepend, keyless, add_message, log_body_as_bytes,
  marshal_records, marshal_scopes, raw_marshal,
}

-- The texts of all bodies, or the error of the first one that has none.
abbrev pub all_or_first : {A B E : Type 0} → (A → E ⊎ B) → List A → E ⊎ List B
all_or_first f [] = inr []
all_or_first f (x ∷ xs) = elim (f x) [ inl e ↦ inl e | inr b ↦ prepend b (all_or_first f xs) ]

abbrev nonempty : List Bytes → List Bytes
nonempty [] = []
nonempty (b ∷ bs) = let rest = nonempty bs in if is_empty b then rest else b ∷ rest

-- A message for each text that is not empty.
abbrev pub as_messages : {E : Type 0} → Str → E ⊎ List Bytes → E ⊎ List ProducerMessage
as_messages topic (inl e) = inl e
as_messages topic (inr bs) = inr (map (keyless topic) (nonempty bs))

module _ {D S M : Type 0} where
  abbrev scope_bodies : List (ScopeLogs D S M) → List (Body D S M)
  scope_bodies [] = []
  scope_bodies (s ∷ ss) = s.log_records ++ scope_bodies ss

  -- The bodies of all log records, in order.
  abbrev pub bodies : List (ResourceLogs D S M) → List (Body D S M)
  bodies [] = []
  bodies (r ∷ rs) = scope_bodies r.scope_logs ++ bodies rs

module _ {D S M E : Type 0} (json : Any D S M → E ⊎ Bytes) (topic : Str) where
  abbrev described : List (Body D S M) → RawError E ⊎ List ProducerMessage
  described bs = as_messages topic (all_or_first (log_body_as_bytes json) bs)

  message-added :
      (t : RawError E ⊎ Bytes) (r : RawError E ⊎ List Bytes)
      → add_message topic t (as_messages topic r)
        ≡ as_messages topic (elim t [ inl e ↦ inl e | inr b ↦ prepend b r ])
  message-added (inl e) r = refl
  message-added (inr []) (inl e) = refl
  message-added (inr []) (inr bs) = refl
  message-added (inr (x ∷ xs)) (inl e) = refl
  message-added (inr (x ∷ xs)) (inr bs) = refl

  records-described :
      (bs cs : List (Body D S M))
      → marshal_records json topic bs (described cs) ≡ described (bs ++ cs)
  unfolding marshal_records
  records-described [] cs = refl
  records-described (b ∷ bs) cs =
      ap (add_message topic (log_body_as_bytes json b)) (records-described bs cs)
      ∙ message-added (log_body_as_bytes json b) (all_or_first (log_body_as_bytes json) (bs ++ cs))

  scopes-described :
      (ss : List (ScopeLogs D S M)) (cs : List (Body D S M))
      → marshal_scopes json topic ss (described cs) ≡ described (scope_bodies ss ++ cs)
  unfolding marshal_scopes
  scopes-described [] cs = refl
  scopes-described (s ∷ ss) cs =
      rw
        (
          scopes-described ss cs,
          records-described s.log_records (scope_bodies ss ++ cs),
          append_assoc,
        )
        refl

  -- The raw marshaler returns the error of the first log body that cannot be turned into bytes, or else
  -- one message without a key for each body whose bytes are not empty, in order.
  pub raw_marshal_lem :
      (logs : List (ResourceLogs D S M))
      → raw_marshal json topic logs
        ≡ as_messages topic (all_or_first (log_body_as_bytes json) (bodies logs))
  unfolding raw_marshal
  raw_marshal_lem [] = refl
  raw_marshal_lem (r ∷ rs) = rw (raw_marshal_lem rs) (scopes-described r.scope_logs (bodies rs))
