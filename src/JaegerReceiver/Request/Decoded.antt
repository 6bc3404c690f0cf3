-- ===== src/JaegerReceiver/Request/Decoded.antt =====
-- What decodeThriftHTTPBody accepts and refuses, and what html.EscapeString leaves in a text.
use hypertrace_collector.Prelude.{
  ℕ, ◌≡◌, refl, Bool, true, false, ◌||◌, ◌⊎◌, inl, inr, [], ◌∷◌, Str, str, ◌==◌, arith, Bool-cases,
}
use hypertrace_collector.Prelude.All.{All, All-append}
use hypertrace_collector.JaegerReceiver.Request.{
  HttpError, Request, content_type, accepted_thrift_format, deserialized, decode_typed, decode_read,
  decode_thrift_http_body, escaped, escape_string, status_bad_request, status_internal_server_error,
}

-- A refusal has one of the two error statuses.
abbrev pub IsRefusal : HttpError → Type 0
IsRefusal h = (h.status_code ≡ status_bad_request) ⊎ (h.status_code ≡ status_internal_server_error)

module _ {E A T : Type 0} (deserialize : Str → E ⊎ A) (media_type : Str → E ⊎ Str)
    (r : Request E T) where
  -- The body can be read, its media type is an accepted one, and it is deserialized to `batch`.
  abbrev pub HoldsBatch : A → Type 0
  HoldsBatch batch =
      (bytes : Str) × (t : Str) × (r.body ≡ inr bytes)
      × (media_type (content_type r.header) ≡ inr t)
      × (accepted_thrift_format t ≡ true)
      × (deserialize bytes ≡ inr batch)

  abbrev pub DecodedAs : HttpError ⊎ A → Type 0
  DecodedAs (inl h) = IsRefusal h
  DecodedAs (inr batch) = HoldsBatch batch

  module _ (text : E → Str) where
    deserialized-DecodedAs :
        (bytes t : Str)
        → r.body ≡ inr bytes
        → media_type (content_type r.header) ≡ inr t
        → accepted_thrift_format t ≡ true
        → (d : E ⊎ A) → deserialize bytes ≡ d
        → DecodedAs (deserialized text d)
    unfolding deserialized
    deserialized-DecodedAs bytes t b m a (inl e) d = inl refl
    deserialized-DecodedAs bytes t b m a (inr batch) d = (bytes, t, b, m, a, d)

    decode_typed-DecodedAs :
        (bytes : Str)
        → r.body ≡ inr bytes
        → (m : E ⊎ Str) → media_type (content_type r.header) ≡ m
        → DecodedAs (decode_typed text deserialize bytes m)
    unfolding decode_typed
    decode_typed-DecodedAs bytes b (inl e) m = inl refl
    decode_typed-DecodedAs bytes b (inr t) m = elim (Bool-cases (accepted_thrift_format t)) [
      | inl a ↦ rw a (deserialized-DecodedAs bytes t b m a (deserialize bytes) refl)
      | inr a ↦ rw a (inl refl)
    ]

    decode_read-DecodedAs :
        (b : E ⊎ Str)
        → r.body ≡ b
        → DecodedAs (decode_read text deserialize media_type (content_type r.header) b)
    unfolding decode_read
    decode_read-DecodedAs (inl e) b = inr refl
    decode_read-DecodedAs (inr bytes) b =
        decode_typed-DecodedAs bytes b (media_type (content_type r.header)) refl

    pub decode_thrift_http_body-DecodedAs :
        DecodedAs (decode_thrift_http_body text deserialize media_type r)
    unfolding decode_thrift_http_body
    decode_thrift_http_body-DecodedAs = decode_read-DecodedAs r.body refl

    pub decode_thrift_http_body-HoldsBatch :
        (batch : A)
        → HoldsBatch batch
        → decode_thrift_http_body text deserialize media_type r ≡ inr batch
    unfolding decode_thrift_http_body decode_read decode_typed deserialized
    decode_thrift_http_body-HoldsBatch batch (bytes, t, b, m, a, d) = rw (b, m, a, d)

-- The bytes that end a text or open a tag in HTML.
abbrev markup : ℕ → Bool
markup c = c == 60 || (c == 62 || (c == 34 || c == 39))

abbrev pub IsPlain : Str → Type 0
IsPlain s = All (λ c. markup c ≡ false) s

escaped-IsPlain : (c : ℕ) → IsPlain (escaped c)
unfolding escaped str
escaped-IsPlain c = ground arith

-- The text that EscapeString returns, which is what a refusal answers with, has no angle bracket and
-- no quote in it.
pub escape_string-IsPlain : (s : Str) → IsPlain (escape_string s)
unfolding escape_string
escape_string-IsPlain [] = tt
escape_string-IsPlain (c ∷ s) =
    All-append (λ (c : ℕ). markup c ≡ false) (escaped c) (escape_string s) (escaped-IsPlain c)
      (escape_string-IsPlain s)
