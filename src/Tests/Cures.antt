-- ===== src/Tests/Cures.antt =====
-- The curing of spans at concrete inputs.
use hypertrace_collector.Prelude.{
  ℕ, ◌≤◌, ◌≡◌, refl, ◌⊎◌, inr, true, false, none, some, List, [], ◌∷◌, ◌++◌, Str, str, str_eq,
  arith,
}
use hypertrace_collector.Prelude.All.{All}
use hypertrace_collector.Kafka.Message.{Bytes, ProducerMessage, byte_size}
use hypertrace_collector.Kafka.Span.{KeyValue, string_type, Span, Batch, SpanMarshaler}
use hypertrace_collector.Kafka.Truncate.{contains}
use hypertrace_collector.Kafka.Cure.{CurerConfig, cure_span}
use hypertrace_collector.Kafka.Cure.Result.{CuredAs, cure_span-CuredAs}
use hypertrace_collector.Kafka.Curer.{marshal, marshal_plain}
use hypertrace_collector.Kafka.Curer.Sizes.{marshal-Fits}
use hypertrace_collector.Kafka.Curer.Agrees.{marshal-eq-marshal_plain}

abbrev tag_bytes : List (KeyValue ℕ) → Bytes
tag_bytes [] = []
tag_bytes (kv ∷ kvs) = kv.v_str ++ tag_bytes kvs

-- A span is marshaled as the text of its tags.
abbrev marshaler : SpanMarshaler ℕ ℕ ℕ
marshaler = record { marshal = λ s. inr (tag_bytes s.tags); encoding = str "test" }

-- Room for 36 bytes of a message's frame and 3 more.
abbrev pub curer : CurerConfig ℕ ℕ ℕ
curer = record {
  marshaler = marshaler;
  at_least_v0_11 = true;
  max_message_bytes = 39;
  dump_span_attributes = false;
  max_attribute_value_size = 2;
  drop_spans = true;
  zero_float = 0;
}

abbrev long_tag : KeyValue ℕ
long_tag = record {
  key = str "k";
  v_type = string_type;
  v_str = 1 ∷ 2 ∷ 3 ∷ 4 ∷ [];
  v_bool = false;
  v_int64 = 0;
  v_float64 = 0;
  v_binary = [];
}

abbrev pub span : Span ℕ ℕ
span = record {
  trace_id = 7 ∷ [];
  span_id = [];
  operation_name = [];
  start_time = [];
  duration = [];
  process = none;
  tags = long_tag ∷ [];
  logs = 1 ∷ 2 ∷ 3 ∷ [];
}

abbrev message : ProducerMessage
message = record { topic = str "t"; key = some (7 ∷ []); value = some (1 ∷ 2 ∷ []); headers = [] }

-- The value of the tag is cut to two bytes, and then the message is as large as it may be.
cured : cure_span curer (str "t") span ≡ inr message
unfolding cure_span str str_eq contains
cured = refl

cure_span-CuredAs_example : CuredAs curer (str "t") 2 span message
cure_span-CuredAs_example = cure_span-CuredAs curer (str "t") span message cured

abbrev batches : ℕ ⊎ List (Batch ℕ ℕ)
batches = inr (record { process = none; spans = span ∷ [] } ∷ [])

abbrev format : ℕ → Str
format n = n ∷ []

marshal-Fits_example :
    All (λ msg. byte_size true msg ≤ 39) (marshal format curer (str "t") batches).messages
marshal-Fits_example = marshal-Fits format curer (str "t") batches refl

abbrev roomy : CurerConfig ℕ ℕ ℕ
roomy = record curer { max_message_bytes = 100 }

marshal-eq-marshal_plain_example :
    marshal format roomy (str "t") batches ≡ marshal_plain marshaler (str "t") batches
marshal-eq-marshal_plain_example =
    marshal-eq-marshal_plain format roomy (str "t") batches
      (unfold marshal_plain byte_size in (omega arith, tt))

abbrev logs : List ℕ
logs = 5 ∷ 6 ∷ 7 ∷ []
