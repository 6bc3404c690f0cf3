-- ===== src/Kafka/Describe.antt =====
-- spanAsString, valueToString and valueSize (exporter/kafkaexporter/jaeger_marshaler_curer.go).
pub use hypertrace_collector.Kafka.Message.{Bytes}
use hypertrace_collector.Prelude.{
  ℕ, ◌+◌, ◌-◌, ◌/◌, ◌%◌, ◌^◌, Bool, true, false, Option, none, some, List, [], ◌∷◌, ◌++◌, Str, str,
  length, ltb, if◌then◌else◌,
}
use hypertrace_collector.Prelude.Decimal.{itoa}
use hypertrace_collector.Kafka.Span.{
  string_type, bool_type, int64_type, float64_type, binary_type, other_type, KeyValue, Process,
  Span,
}

-- `strconv.FormatBool`
abbrev format_bool : Bool → Str
format_bool true = str "true"
format_bool false = str "false"

-- `strconv.FormatInt(n, 10)` of the 64-bit pattern `n`.
abbrev format_int : ℕ → Str
format_int n = if ltb n (2 ^ 63) then itoa n else str "-" ++ itoa (2 ^ 64 - n)

abbrev hex_digit : ℕ → ℕ
hex_digit d = if ltb d 10 then 48 + d else 87 + d

-- `hex.EncodeToString`
encode_hex : Bytes → Str
encode_hex [] = []
encode_hex (b ∷ bs) = hex_digit (b / 16) ∷ hex_digit (b % 16) ∷ encode_hex bs

-- `format_float` is `fmt.Sprintf("%f", _)`.
module _ {D : Type 0} (format_float : D → Str) where
  -- valueToString
  value_to_string : KeyValue D → Str
  unfolding encode_hex
  value_to_string kv = elim kv.v_type [
    | string_type ↦ kv.v_str
    | bool_type ↦ format_bool kv.v_bool
    | int64_type ↦ format_int kv.v_int64
    | float64_type ↦ format_float kv.v_float64
    | binary_type ↦ encode_hex kv.v_binary
    | other_type ↦ []
  ]

  -- valueSize
  value_size : KeyValue D → ℕ
  value_size kv = elim kv.v_type [
    | string_type ↦ length kv.v_str
    | bool_type ↦ length (format_bool kv.v_bool)
    | int64_type ↦ length (format_int kv.v_int64)
    | float64_type ↦ length (format_float kv.v_float64)
    | binary_type ↦ length kv.v_binary
    | other_type ↦ 0
  ]

  abbrev process_tag : KeyValue D → Str
  process_tag kv = str "{key: " ++ (kv.key ++ (str ", value: " ++ (value_to_string kv ++ str "},")))

  abbrev concat_tags : (KeyValue D → Str) → List (KeyValue D) → Str
  concat_tags f [] = []
  concat_tags f (kv ∷ kvs) = f kv ++ concat_tags f kvs

  abbrev describe_process : Option (Process D) → Str
  describe_process none = str "process: nil, "
  describe_process (some p) =
      str "process: {service_name: "
      ++ (p.service_name ++ (str ", tags: [" ++ (concat_tags process_tag p.tags ++ str "]}, ")))

  -- A tag of the span: its value, or only its size.
  abbrev span_tag : Bool → KeyValue D → Str
  span_tag dump kv =
      str "{key: "
      ++ (kv.key
          ++ (str ", "
              ++ ((if dump
                    then str "value: " ++ value_to_string kv
                    else str "value_size: " ++ itoa (value_size kv))
                  ++ str "},")))

  -- spanAsString; the flag is `j.dumpSpanAttributes`.
  pub span_as_string : {L : Type 0} → Bool → Span D L → Str
  unfolding value_to_string value_size
  span_as_string dump s =
      str "{trace_id: "
      ++ (s.trace_id
          ++ (str ", span_id: "
              ++ (s.span_id
                  ++ (str ", name: "
                      ++ (s.operation_name
                          ++ (str ", start_time: "
                              ++ (s.start_time
                                  ++ (str ", duration: "
                                      ++ (s.duration
                                          ++ (str ", "
                                              ++ (describe_process s.process
                                                  ++ (str "tags: ["
                                                      ++ (concat_tags (span_tag dump) s.tags
                                                          ++ (str "],logs count: "
                                                            ++ (itoa (length s.logs)
                                                            ++ str "}")))))))))))))))
