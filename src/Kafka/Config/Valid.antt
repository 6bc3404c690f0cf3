-- ===== src/Kafka/Config/Valid.antt =====
-- Which settings Validate accepts.
use hypertrace_collector.Prelude.{
  ◌≡◌, ◌≢◌, ◌↔◌, refl, ◌⊎◌, List, [], ◌∷◌, inl, inr, true, false, Option, none, some, Str, str,
  str_eq, str_eq_iff, is_empty, arith,
}
use hypertrace_collector.Kafka.Config.{
  SaslConfig, Config, ConfigError, Codec, no_compression, gzip, snappy, lz4, zstd, outside_minus1_1,
  outside_0_1, ℤ, pos, negsuc, mechanism_known, sarama_producer_compression_codec,
  validate_sasl_config, validate,
}

-- The name of a codec in the settings.
unfoldable codec_name : Codec → Str
codec_name no_compression = str "none"
codec_name gzip = str "gzip"
codec_name snappy = str "snappy"
codec_name lz4 = str "lz4"
codec_name zstd = str "zstd"

-- The value is one of the list.
abbrev pub OneOf : {A : Type 0} → List A → A → Type 0
OneOf [] x = ⊥
OneOf (a ∷ as_) x = (x ≡ a) ⊎ OneOf as_ x

abbrev pub mechanisms : List Str
mechanisms = str "PLAIN" ∷ str "AWS_MSK_IAM" ∷ str "SCRAM-SHA-256" ∷ str "SCRAM-SHA-512" ∷ []

abbrev pub compressions : List Str
compressions = str "none" ∷ str "gzip" ∷ str "snappy" ∷ str "lz4" ∷ str "zstd" ∷ []

abbrev ValidSasl : Option SaslConfig → Type 0
ValidSasl none = Unit
ValidSasl (some c) =
    (c.username ≢ [])
    × (c.password ≢ [])
    × OneOf mechanisms c.mechanism
    × OneOf (pos 0 ∷ pos 1 ∷ []) c.version

abbrev pub Valid : Config → Type 0
Valid cfg =
    OneOf (negsuc 0 ∷ pos 0 ∷ pos 1 ∷ []) cfg.producer.required_acks
    × OneOf compressions cfg.producer.compression
    × ValidSasl cfg.sasl

acks_iff : (z : ℤ) → (outside_minus1_1 z ≡ false) ↔ OneOf (negsuc 0 ∷ pos 0 ∷ pos 1 ∷ []) z
acks_iff (pos n) = (λ h. ground (arith, h), λ h. ground (arith, h))
acks_iff (negsuc n) = (λ h. ground (arith, h), λ h. ground (arith, h))

version_iff : (z : ℤ) → (outside_0_1 z ≡ false) ↔ OneOf (pos 0 ∷ pos 1 ∷ []) z
version_iff (pos n) = (λ h. ground (arith, h), λ h. ground (arith, h))
version_iff (negsuc n) = (λ h. cc, λ h. ground (arith, h))

mechanism_iff : (m : Str) → (mechanism_known m ≡ true) ↔ OneOf mechanisms m
mechanism_iff m = ground (
  arith,
  str_eq_iff m (str "PLAIN"),
  str_eq_iff m (str "AWS_MSK_IAM"),
  str_eq_iff m (str "SCRAM-SHA-256"),
  str_eq_iff m (str "SCRAM-SHA-512"),
)

codec_known :
    (s : Str) → OneOf compressions s → (c : Codec) × (sarama_producer_compression_codec s ≡ inr c)
unfolding sarama_producer_compression_codec str str_eq
codec_known s (inl e) = (no_compression, rw e refl)
codec_known s (inr (inl e)) = (gzip, rw e refl)
codec_known s (inr (inr (inl e))) = (snappy, rw e refl)
codec_known s (inr (inr (inr (inl e)))) = (lz4, rw e refl)
codec_known s (inr (inr (inr (inr (inl e))))) = (zstd, rw e refl)
codec_known s (inr (inr (inr (inr (inr x))))) = absurd x

compression_iff :
    (s : Str) → ((c : Codec) × (sarama_producer_compression_codec s ≡ inr c)) ↔ OneOf compressions s
unfolding sarama_producer_compression_codec
compression_iff s = (
  λ (c, h). ground (
    arith,
    h,
    str_eq_iff s (str "none"),
    str_eq_iff s (str "gzip"),
    str_eq_iff s (str "snappy"),
    str_eq_iff s (str "lz4"),
    str_eq_iff s (str "zstd"),
  ),
  codec_known s,
)

nonempty_iff : (s : Str) → (is_empty s ≡ false) ↔ (s ≢ [])
nonempty_iff [] = (λ h. cc, λ h. absurd (h refl))
nonempty_iff (x ∷ s) = (λ h. λ e. cc, λ h. refl)

-- A codec is found for its own name only.
codec_found : (s : Str) (c : Codec) → sarama_producer_compression_codec s ≡ inr c → s ≡ codec_name c
unfolding sarama_producer_compression_codec codec_name
codec_found s c h = ground (
  arith,
  str_eq_iff s (str "none"),
  str_eq_iff s (str "gzip"),
  str_eq_iff s (str "snappy"),
  str_eq_iff s (str "lz4"),
  str_eq_iff s (str "zstd"),
)

codec_nonempty : (c : Codec) → is_empty (codec_name c) ≡ false
unfolding codec_name str
codec_nonempty no_compression = refl
codec_nonempty gzip = refl
codec_nonempty snappy = refl
codec_nonempty lz4 = refl
codec_nonempty zstd = refl

-- A compression for which a codec is found is not blank.
pub compression_nonempty :
    (s : Str) (c : Codec) → sarama_producer_compression_codec s ≡ inr c → is_empty s ≡ false
compression_nonempty s c h = rw (codec_found s c h) (codec_nonempty c)

validate_sasl_config_iff : (c : Option SaslConfig) → (validate_sasl_config c ≡ none) ↔ ValidSasl c
unfolding validate_sasl_config
validate_sasl_config_iff none = (λ _. tt, λ _. refl)
validate_sasl_config_iff (some c) =
    let u = nonempty_iff c.username in
    let p = nonempty_iff c.password in
    let m = mechanism_iff c.mechanism in
    let v = version_iff c.version in
    let tests : (validate_sasl_config (some c) ≡ none) ↔ (
        (is_empty c.username ≡ false)
        × (is_empty c.password ≡ false)
        × (mechanism_known c.mechanism ≡ true)
        × (outside_0_1 c.version ≡ false)) =
      ground arith in
    (
      λ h. let (a, b, d, e) = tests.0 h in (u.0 a, p.0 b, m.0 d, v.0 e),
      λ (a, b, d, e). tests.1 (u.1 a, p.1 b, m.1 d, v.1 e),
    )

validate-tests :
    (cfg : Config)
    → (validate cfg ≡ none) ↔ (
        (outside_minus1_1 cfg.producer.required_acks ≡ false)
        × ((c : Codec) × (sarama_producer_compression_codec cfg.producer.compression ≡ inr c))
        × (validate_sasl_config cfg.sasl ≡ none))
unfolding validate
validate-tests cfg = (
  λ h. forward (sarama_producer_compression_codec cfg.producer.compression) refl h,
  λ (a, (c, p), s). rw (validate, a, p) s,
)
  where
    forward :
        (r : ConfigError ⊎ Codec)
        → sarama_producer_compression_codec cfg.producer.compression ≡ r
        → validate cfg ≡ none
        → (outside_minus1_1 cfg.producer.required_acks ≡ false)
          × ((c : Codec) × (sarama_producer_compression_codec cfg.producer.compression ≡ inr c))
          × (validate_sasl_config cfg.sasl ≡ none)
    forward (inl e) p h = ground (arith, rw (validate, p) at h)
    forward (inr c) p h =
        let h' = rw (validate, p) at h in (ground (arith, h'), (c, p), ground (arith, h'))

-- Settings that Validate accepts have a compression with a codec.
pub validate-codec :
    (cfg : Config)
    → validate cfg ≡ none
    → (c : Codec) × (sarama_producer_compression_codec cfg.producer.compression ≡ inr c)
validate-codec cfg h = let (_, codec, _) = (validate-tests cfg).0 h in codec

-- Validate returns no error exactly when the required acks are -1, 0 or 1, the compression of the
-- producer is "none", "gzip", "snappy", "lz4" or "zstd", and the SASL settings, if there are any, have a
-- username and a password that are not empty, one of the mechanisms "PLAIN", "AWS_MSK_IAM", "SCRAM-SHA-256" and
-- "SCRAM-SHA-512", and the version 0 or 1.
pub validate_iff : (cfg : Config) → (validate cfg ≡ none) ↔ Valid cfg
validate_iff cfg =
    let t = validate-tests cfg in
    let a = acks_iff cfg.producer.required_acks in
    let k = compression_iff cfg.producer.compression in
    let s = validate_sasl_config_iff cfg.sasl in
    (λ h. let (x, y, z) = t.0 h in (a.0 x, k.0 y, s.0 z), λ (x, y, z). t.1 (a.1 x, k.1 y, s.1 z))
