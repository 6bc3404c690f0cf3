-- ===== src/Kafka/Message.antt =====
-- sarama.ProducerMessage, and byteSize (exporter/kafkaexporter/jaeger_marshaler_curer.go).
use hypertrace_collector.Prelude.{
  ℕ, ◌+◌, ◌*◌, Bool, Option, none, some, List, [], ◌∷◌, Str, length, if◌then◌else◌,
}

abbrev pub Bytes : Type 0
Bytes = List ℕ

pub record Header : Type 0 where
  pub key : Bytes
  pub value : Bytes

-- A missing key or value is nil.
pub record ProducerMessage : Type 0 where
  pub topic : Str
  pub key : Option Bytes
  pub value : Option Bytes
  pub headers : List Header

-- encoding/binary
abbrev max_varint_len32 : ℕ
max_varint_len32 = 5

abbrev max_varint_len64 : ℕ
max_varint_len64 = 10

abbrev maximum_record_overhead : ℕ
maximum_record_overhead = 5 * max_varint_len32 + max_varint_len64 + 1

abbrev producer_message_overhead : ℕ
producer_message_overhead = 26

-- The loop over `m.Headers`.
abbrev headers_size : ℕ → List Header → ℕ
headers_size size [] = size
headers_size size (h ∷ hs) =
    headers_size (size + (length h.key + length h.value + 2 * max_varint_len32)) hs

abbrev encoder_size : Option Bytes → ℕ
encoder_size none = 0
encoder_size (some b) = length b

-- byteSize; the flag is `v.IsAtLeast(sarama.V0_11_0_0)`. Go's int is wide enough for every message
-- that fits in memory.
unfoldable pub byte_size : Bool → ProducerMessage → ℕ
byte_size at_least_v0_11 m =
    let size =
      if at_least_v0_11
      then headers_size maximum_record_overhead m.headers
      else producer_message_overhead in
    size + encoder_size m.key + encoder_size m.value
