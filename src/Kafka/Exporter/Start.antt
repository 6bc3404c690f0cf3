-- ===== src/Kafka/Exporter/Start.antt =====
-- The compression of a producer whose settings were validated.
use hypertrace_collector.Prelude.{◌≡◌, ◌≢◌, refl, ◌⊎◌, inl, inr, none, Str, arith}
use hypertrace_collector.Kafka.Config.{Config, ConfigError, validate}
use hypertrace_collector.Kafka.Config.Valid.{validate-codec, compression_nonempty}
use hypertrace_collector.Kafka.Exporter.{
  SaramaConfig, Sarama, StartError, failed, config_error, configured_version, base_config,
  compressed, authenticated, connected, new_sarama_producer,
}

-- The settings with another name at `compression.codec`.
abbrev pub with_codec : Str → Config → Config
with_codec name cfg = record cfg { compression = record cfg.compression { codec = name } }

module _ {V E P : Type 0} (s : Sarama V E P) (cfg : Config) where
  compressed-with_codec :
      (name : Str) (c : SaramaConfig V)
      → validate cfg ≡ none
      → compressed s (with_codec name cfg) c ≡ compressed s cfg c
  unfolding compressed
  compressed-with_codec name c h =
      let (codec, found) = validate-codec cfg h in
      let e = compression_nonempty cfg.producer.compression codec found in rw (e, compressed) refl

  compressed-succeeds :
      (c : SaramaConfig V) (e : ConfigError) → validate cfg ≡ none → compressed s cfg c ≢ inl e
  unfolding compressed
  compressed-succeeds c e h p =
      let (codec, found) = validate-codec cfg h in
      let q = compression_nonempty cfg.producer.compression codec found in
      cc (rw (compressed, q, found) at p)

  authenticated-with_codec :
      (name : Str) → authenticated s (with_codec name cfg) ≡ authenticated s cfg
  unfolding authenticated configured_version base_config
  authenticated-with_codec name = refl

  -- NewSyncProducer's error is not one of the settings.
  connect_failed :
      (x : SaramaConfig V) (y : ConfigError)
      → Path
          (StartError E ⊎ P)
          (elim (s.new_sync_producer cfg.brokers x) [ inl e ↦ inl (failed e) | inr p ↦ inr p ])
          (inl (config_error y))
      → ⊥
  connect_failed x y z = ground (arith, z)

  connected-with_codec :
      (name : Str) (c : SaramaConfig V)
      → validate cfg ≡ none
      → (connected s (with_codec name cfg) c ≡ connected s cfg c)
        × ((e : ConfigError) → connected s cfg c ≢ inl (config_error e))
  unfolding connected
  connected-with_codec name c h =
      go (compressed s (with_codec name cfg) c) (compressed s cfg c)
        (compressed-with_codec name c h) refl refl
    where
      go :
          (r' r : ConfigError ⊎ SaramaConfig V)
          → r' ≡ r
          → compressed s (with_codec name cfg) c ≡ r'
          → compressed s cfg c ≡ r
          → (connected s (with_codec name cfg) c ≡ connected s cfg c)
            × ((e : ConfigError) → connected s cfg c ≢ inl (config_error e))
      go r' (inl x) e q p = elim (compressed-succeeds c x h p) [ ]
      go r' (inr x) e q p = rw (connected, q, p, e) (refl, λ y z. connect_failed x y z)

  -- For settings that Validate accepts, newSaramaProducer never fails because of the compression, and
  -- what it returns does not depend on `compression.codec`.
  pub new_sarama_producer-codec :
      (name : Str)
      → validate cfg ≡ none
      → (new_sarama_producer s (with_codec name cfg) ≡ new_sarama_producer s cfg)
        × ((e : ConfigError) → new_sarama_producer s cfg ≢ inl (config_error e))
  unfolding new_sarama_producer
  new_sarama_producer-codec name h = go (authenticated s cfg) refl
    where
      go :
          (r : E ⊎ SaramaConfig V)
          → authenticated s cfg ≡ r
          → (new_sarama_producer s (with_codec name cfg) ≡ new_sarama_producer s cfg)
            × ((e : ConfigError) → new_sarama_producer s cfg ≢ inl (config_error e))
      go (inl x) p = rw (new_sarama_producer, authenticated-with_codec name, p) (refl, λ e q. cc)
      go (inr c) p =
          rw (new_sarama_producer, authenticated-with_codec name, p) (connected-with_codec name c h)
