-- ===== src/Kafka/Marshalers.antt =====
-- exporter/kafkaexporter/raw_marshaler.go and pdata_marshaler.go. The encoders of pdata, encoding/json,
-- the hash of attributes, and the splitting of traces are parameters.
pub mod Raw
pub mod Keys
use hypertrace_collector.Prelude.{
  ℕ, Bool, true, false, ◌⊎◌, inl, inr, Option, none, some, List, [], ◌∷◌, Str, if◌then◌else◌,
}
use hypertrace_collector.Pdata.Metrics.{ResourceMetrics, Metrics}
use hypertrace_collector.Kafka.Message.{Bytes, ProducerMessage}

-- pcommon.Value; `other_body` has a type that the enumeration does not have. `D` is float64, `S` a slice
-- and `M` a map, as AsRaw returns them.
pub data Body (D S M : Type 0) : Type 0 where
  str_body : Str → Body D S M
  bytes_body : Bytes → Body D S M
  bool_body : Bool → Body D S M
  double_body : D → Body D S M
  int_body : ℕ → Body D S M
  empty_body : Body D S M
  slice_body : S → Body D S M
  map_body : M → Body D S M
  other_body : Body D S M

-- The values that json.Marshal is given.
pub data Any (D S M : Type 0) : Type 0 where
  any_string : Str → Any D S M
  any_bool : Bool → Any D S M
  any_float64 : D → Any D S M
  any_int64 : ℕ → Any D S M
  any_slice : S → Any D S M
  any_map : M → Any D S M

pub data RawError (E : Type 0) : Type 0 where
  unsupported : RawError E
  json_failed : E → RawError E

-- A log record is its body.
pub record ScopeLogs (D S M : Type 0) : Type 0 where
  pub log_records : List (Body D S M)

pub record ResourceLogs (D S M : Type 0) : Type 0 where
  pub scope_logs : List (ScopeLogs D S M)

-- `append(messages, …)` for the messages of one more step of a loop, where the rest gave `r`.
abbrev pub prepend : {A E : Type 0} → A → E ⊎ List A → E ⊎ List A
prepend a (inl e) = inl e
prepend a (inr xs) = inr (a ∷ xs)

-- A message without a key.
abbrev pub keyless : Str → Bytes → ProducerMessage
keyless topic bts = record { topic = topic; key = none; value = some bts; headers = [] }

-- A log record's message, and the rest: an error ends the loops, and an empty text has no message.
abbrev pub add_message :
    {E : Type 0}
    → Str
    → RawError E ⊎ Bytes
    → RawError E ⊎ List ProducerMessage
    → RawError E ⊎ List ProducerMessage
add_message topic (inl e) rest = inl e
add_message topic (inr []) rest = rest
add_message topic (inr (x ∷ xs)) rest = prepend (keyless topic (x ∷ xs)) rest

module _ {D S M E : Type 0} (json : Any D S M → E ⊎ Bytes) where
  -- interfaceAsBytes, of a value that is not nil.
  unfoldable interface_as_bytes : Any D S M → RawError E ⊎ Bytes
  interface_as_bytes v = elim (json v) [ inl e ↦ inl (json_failed e) | inr b ↦ inr b ]

  unfoldable pub log_body_as_bytes : Body D S M → RawError E ⊎ Bytes
  unfolding interface_as_bytes
  log_body_as_bytes (str_body s) = interface_as_bytes (any_string s)
  log_body_as_bytes (bytes_body b) = inr b
  log_body_as_bytes (bool_body b) = interface_as_bytes (any_bool b)
  log_body_as_bytes (double_body d) = interface_as_bytes (any_float64 d)
  log_body_as_bytes (int_body n) = interface_as_bytes (any_int64 n)
  log_body_as_bytes empty_body = inr []
  log_body_as_bytes (slice_body s) = interface_as_bytes (any_slice s)
  log_body_as_bytes (map_body m) = interface_as_bytes (any_map m)
  log_body_as_bytes other_body = inl unsupported

  -- The three loops of Marshal, before the messages that the outer loops go on with.
  unfoldable pub marshal_records :
      Str
      → List (Body D S M)
      → RawError E ⊎ List ProducerMessage
      → RawError E ⊎ List ProducerMessage
  unfolding log_body_as_bytes
  marshal_records topic [] after = after
  marshal_records topic (b ∷ bs) after =
      add_message topic (log_body_as_bytes b) (marshal_records topic bs after)

  unfoldable pub marshal_scopes :
      Str
      → List (ScopeLogs D S M)
      → RawError E ⊎ List ProducerMessage
      → RawError E ⊎ List ProducerMessage
  unfolding marshal_records
  marshal_scopes topic [] after = after
  marshal_scopes topic (s ∷ ss) after =
      marshal_records topic s.log_records (marshal_scopes topic ss after)

  -- rawMarshaler.Marshal; an error ends it with no message.
  unfoldable pub raw_marshal : Str → List (ResourceLogs D S M) → RawError E ⊎ List ProducerMessage
  unfolding marshal_scopes
  raw_marshal topic [] = inr []
  raw_marshal topic (r ∷ rs) = marshal_scopes topic r.scope_logs (raw_marshal topic rs)

-- A message with a key.
abbrev pub with_key : Str → Bytes → Bytes → ProducerMessage
with_key topic k bts = record { topic = topic; key = some k; value = some bts; headers = [] }

module _ {T E : Type 0} (marshal : T → E ⊎ Bytes) where
  -- The one message of an encoder that sets no key: pdataLogsMarshaler.Marshal, and the `else` of the
  -- other two.
  unfoldable pub marshal_whole : Str → T → E ⊎ List ProducerMessage
  marshal_whole topic td = elim (marshal td) [
    | inl e ↦ inl e
    | inr bts ↦ inr (keyless topic bts ∷ [])
  ]

  -- The loop that makes a message for each part, under the part's key.
  unfoldable pub marshal_parts : (T → Bytes) → Str → List T → E ⊎ List ProducerMessage
  marshal_parts key_of topic [] = inr []
  marshal_parts key_of topic (t ∷ ts) =
      let rest = marshal_parts key_of topic ts in
      elim (marshal t) [ inl e ↦ inl e | inr bts ↦ prepend (with_key topic (key_of t) bts) rest ]

  -- pdataTracesMarshaler.Marshal; `split` is SplitTraces, and `trace_key` the text of the trace ID of a
  -- part's first span.
  unfoldable pub marshal_traces :
      (T → List T) → (T → Bytes) → Bool → Str → T → E ⊎ List ProducerMessage
  unfolding marshal_whole marshal_parts
  marshal_traces split trace_key keyed topic td =
      if keyed then marshal_parts trace_key topic (split td) else marshal_whole topic td

module _ {M D : Type 0} where
  -- `newMetrics`, for each resource.
  abbrev pub one_by_one : Metrics M D → List (Metrics M D)
  one_by_one [] = []
  one_by_one (r ∷ rs) = (r ∷ []) ∷ one_by_one rs

  -- The hash of the attributes of the one resource of a part.
  abbrev pub part_hash : (M → Bytes) → Metrics M D → Bytes
  part_hash map_hash [] = []
  part_hash map_hash (r ∷ _) = map_hash r.resource

  -- pdataMetricsMarshaler.Marshal
  unfoldable pub marshal_metrics :
      {E : Type 0}
      → (Metrics M D → E ⊎ Bytes)
      → (M → Bytes)
      → Bool
      → Str
      → Metrics M D
      → E ⊎ List ProducerMessage
  unfolding marshal_whole marshal_parts
  marshal_metrics marshal map_hash keyed topic md =
      if keyed
      then marshal_parts marshal (part_hash map_hash) topic (one_by_one md)
      else marshal_whole marshal topic md
