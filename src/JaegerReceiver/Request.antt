-- ===== src/JaegerReceiver/Request.antt =====
-- receiver/jaegerreceiver/trace_receiver.modified.go and errors.go: what an HTTP request holds and how
-- decodeThriftHTTPBody and toMetadata read it, with http.Error and html.EscapeString. The Thrift
-- deserializer, mime.ParseMediaType and gRPC's metadata are parameters; `E` is the type of errors,
-- with the text that `%v` prints.
pub mod Decoded
pub mod Keys
use hypertrace_collector.Prelude.{
  ℕ, ◌≡◌, Bool, ◌||◌, ◌⊎◌, inl, inr, Option, none, some, List, [], ◌∷◌, ◌++◌, Str, str, str_eq,
  if◌then◌else◌, ◌==◌,
}
use hypertrace_collector.Prelude.GoMap.{GoMap, lookup}
use hypertrace_collector.Pdata.Telemetry.{Context}

-- gRPC's metadata.MD: Append "adds the values to key k" and Get "obtains the values for a given key";
-- in both "k is converted to lowercase".
pub record Metadata (D : Type 0) : Type 0 where
  pub empty : D
  pub append : D → Str → List Str → D
  pub get : D → Str → List Str
  pub lower : Str → Str
  pub get-empty : (j : Str) → get empty j ≡ []
  pub get-append :
      (d : D) (k j : Str) (vs : List Str)
      → get (append d k vs) j ≡ (if str_eq (lower k) (lower j) then get d j ++ vs else get d j)

-- errors.go
pub record HttpError : Type 0 where
  pub msg : Str
  pub status_code : ℕ

-- The status codes of net/http.
abbrev pub status_accepted : ℕ
status_accepted = 202

abbrev pub status_bad_request : ℕ
status_bad_request = 400

abbrev pub status_internal_server_error : ℕ
status_internal_server_error = 500

-- acceptedThriftFormats, and the test of a key in it.
abbrev pub accepted_thrift_format : Str → Bool
accepted_thrift_format s =
    str_eq (str "application/x-thrift") s || str_eq (str "application/vnd.apache.thrift.binary") s

-- An http.Request: what reading its body gives, its headers in the order that a loop over them takes,
-- under their canonical keys, and its context.
pub record Request (E T : Type 0) : Type 0 where
  pub body : E ⊎ Str
  pub header : GoMap (List Str)
  pub context : Context T

-- `r.Header.Get` of a canonical key
abbrev first_value : Option (List Str) → Str
first_value none = []
first_value (some []) = []
first_value (some (v ∷ vs)) = v

unfoldable pub content_type : GoMap (List Str) → Str
content_type header = first_value (lookup (str "Content-Type") header)

-- What is written to the http.ResponseWriter.
pub record Response : Type 0 where
  pub status : ℕ
  pub body : Str

-- `http.Error`, which ends the body with a newline.
abbrev pub http_response : Str → ℕ → Response
http_response msg code = record { status = code; body = msg ++ 10 ∷ [] }

-- `html.EscapeString`, of one byte and of a string.
unfoldable pub escaped : ℕ → Str
unfolding str
escaped c =
    if c == 38
    then str "&amp;"
    else if c == 39
    then str "&#39;"
    else if c == 60
    then str "&lt;"
    else if c == 62
    then str "&gt;"
    else if c == 34
    then str "&#34;"
    else c ∷ []

unfoldable pub escape_string : Str → Str
unfolding escaped
escape_string [] = []
escape_string (c ∷ s) = escaped c ++ escape_string s

module _ {E : Type 0} (text : E → Str) where
  -- The refusals of decodeThriftHTTPBody: a body that cannot be read or deserialized, with its
  -- status, a content type that cannot be parsed, and one that is not accepted.
  abbrev unable : ℕ → E → HttpError
  unable code e = record {
    msg = str "Unable to process request body: " ++ text e;
    status_code = code;
  }

  abbrev cannot_parse : E → HttpError
  cannot_parse e = record {
    msg = str "Cannot parse content type: " ++ text e;
    status_code = status_bad_request;
  }

  abbrev unsupported : Str → HttpError
  unsupported t = record {
    msg = str "Unsupported content type: " ++ t;
    status_code = status_bad_request;
  }

  -- The last step, `tdes.Read`.
  pub deserialized : {A : Type 0} → E ⊎ A → HttpError ⊎ A
  deserialized (inl e) = inl (unable status_bad_request e)
  deserialized (inr batch) = inr batch

  module _ {A : Type 0} (deserialize : Str → E ⊎ A) where
    -- The steps after `mime.ParseMediaType`.
    pub decode_typed : Str → E ⊎ Str → HttpError ⊎ A
    unfolding deserialized
    decode_typed bytes (inl e) = inl (cannot_parse e)
    decode_typed bytes (inr t) =
        if accepted_thrift_format t then deserialized (deserialize bytes) else inl (unsupported t)

    module _ (media_type : Str → E ⊎ Str) where
      -- The steps after `io.ReadAll`.
      pub decode_read : Str → E ⊎ Str → HttpError ⊎ A
      unfolding decode_typed
      decode_read header_value (inl e) = inl (unable status_internal_server_error e)
      decode_read header_value (inr bytes) = decode_typed bytes (media_type header_value)

      -- decodeThriftHTTPBody
      unfoldable pub decode_thrift_http_body : {T : Type 0} → Request E T → HttpError ⊎ A
      unfolding decode_read
      decode_thrift_http_body r = decode_read (content_type r.header) r.body

-- toMetadata
module _ {D : Type 0} (md : Metadata D) where
  unfoldable pub append_all : D → GoMap (List Str) → D
  append_all d [] = d
  append_all d ((k, vs) ∷ header) = append_all (md.append d k vs) header

  unfoldable pub to_metadata : GoMap (List Str) → D
  unfolding append_all
  to_metadata header = append_all md.empty header
