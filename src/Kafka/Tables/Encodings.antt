-- ===== src/Kafka/Tables/Encodings.antt =====
-- The encodings of the factory's marshalers.
use hypertrace_collector.Prelude.{
  ◌≡◌, refl, sym, ◌∙◌, ap, Bool, inl, inr, Option, none, some, List, [], ◌∷◌, Str, str, str_eq,
  str_eq_iff, str_eq_refl, ◌&&◌, Bool-cases, if◌then◌else◌, arith,
}
use hypertrace_collector.Prelude.GoMap.{
  GoMap, lookup, insert, lookup-insert, Entries, Entries-lookup, Entries-insert,
}
use hypertrace_collector.Kafka.Config.{Config}
use hypertrace_collector.Kafka.Exporter.{Marshaler, KafkaProducer}
use hypertrace_collector.Kafka.Factory.{
  Jaeger, default_encoding, with_marshalers, key, new_keyed_exporter, cures_spans,
  new_traces_exporter, curing_marshaler, curer, with_topic, default_traces_topic, created,
  create_traces_exporter,
}
use hypertrace_collector.Kafka.Tables.{
  TracesLibraries, traces_marshalers, table, pdata_traces_marshaler, ExporterFactory, FactoryOption,
  with_traces, with_metrics, with_logs, apply_option, new_factory,
}

module _ {T E : Type 0} where
  -- A marshaler stands under its own encoding.
  abbrev pub UnderEncoding : Str → Marshaler T E → Type 0
  UnderEncoding k m = k ≡ m.encoding

  abbrev pub Encoded : GoMap (Marshaler T E) → Type 0
  Encoded ms = Entries UnderEncoding ms

  with_marshalers-Encoded :
      (options : List (Marshaler T E)) (ms : GoMap (Marshaler T E))
      → Encoded ms
      → Encoded (with_marshalers options ms)
  unfolding with_marshalers
  with_marshalers-Encoded [] ms h = h
  with_marshalers-Encoded (m ∷ options) ms h =
      with_marshalers-Encoded options (insert m.encoding m ms)
        (Entries-insert UnderEncoding m.encoding m ms refl h)

  key-encoding : (partition : Bool) (m : Marshaler T E) → (key partition m).encoding ≡ m.encoding
  key-encoding partition m = elim (Bool-cases (partition && m.keyable)) [
    | inl e ↦ rw e refl
    | inr e ↦ rw e refl
  ]

  -- The marshaler that is found has the encoding that was asked for, and the map stays as it should be.
  new_keyed_exporter-Encoded :
      (partition : Bool) (encoding : Str) (ms : GoMap (Marshaler T E))
      → Encoded ms
      → let (ms', found) = new_keyed_exporter partition encoding ms in
        Encoded ms' × ((m : Marshaler T E) → found ≡ some m → m.encoding ≡ encoding)
  unfolding new_keyed_exporter
  new_keyed_exporter-Encoded partition encoding ms h = go (lookup encoding ms) refl
    where
      go :
          (o : Option (Marshaler T E))
          → lookup encoding ms ≡ o
          → let (ms', found) = new_keyed_exporter partition encoding ms in
            Encoded ms' × ((m : Marshaler T E) → found ≡ some m → m.encoding ≡ encoding)
      go none l = rw (l, new_keyed_exporter) (h, λ m e. cc)
      go (some m) l =
          let under : encoding ≡ m.encoding = Entries-lookup UnderEncoding encoding m ms h l in
          let same : (key partition m).encoding ≡ encoding = key-encoding partition m ∙ sym under in
          rw (l, new_keyed_exporter)
            (
              Entries-insert UnderEncoding encoding (key partition m) ms (sym same) h,
              λ k e.
                  let eq : key partition m ≡ k = cc in
                  ap (λ (x : Marshaler T E). x.encoding) (sym eq) ∙ same,
            )

  -- An encoding that has a marshaler keeps one when options add marshalers.
  Known : Str → GoMap (Marshaler T E) → Type 0
  Known k ms = (m : Marshaler T E) × (lookup k ms ≡ some m)

  with_marshalers-Known :
      (k : Str) (options : List (Marshaler T E)) (ms : GoMap (Marshaler T E))
      → Known k ms
      → Known k (with_marshalers options ms)
  unfolding with_marshalers Known
  with_marshalers-Known k [] ms h = h
  with_marshalers-Known k (n ∷ options) ms (m, l) =
      with_marshalers-Known k options (insert n.encoding n ms)
        (elim (Bool-cases (str_eq n.encoding k)) [
          | inl e ↦ (n, lookup-insert n.encoding k n ms ∙ rw e refl)
          | inr e ↦ (m, lookup-insert n.encoding k n ms ∙ rw e l)
        ])

  -- The first marshaler of a table literal can be found.
  table-Known :
      (m : Marshaler T E) (rest : List (Marshaler T E)) → Known m.encoding (table (m ∷ rest))
  unfolding with_marshalers insert lookup Known
  table-Known m rest =
      with_marshalers-Known m.encoding rest ((m.encoding, m) ∷ [])
        (m, rw (str_eq_refl m.encoding) refl)

module _ {T MT LT E : Type 0} where
  -- The options keep what holds of the marshalers of traces.
  new_factory-Encoded :
      (options : List (FactoryOption T MT LT E)) (f : ExporterFactory T MT LT E)
      → Encoded f.traces_marshalers
      → Encoded (new_factory options f).traces_marshalers
  unfolding new_factory apply_option
  new_factory-Encoded [] f h = h
  new_factory-Encoded (with_traces ms ∷ os) f h =
      new_factory-Encoded os _ (with_marshalers-Encoded ms f.traces_marshalers h)
  new_factory-Encoded (with_metrics ms ∷ os) f h = new_factory-Encoded os _ h
  new_factory-Encoded (with_logs ms ∷ os) f h = new_factory-Encoded os _ h

  new_factory-Known :
      (k : Str) (options : List (FactoryOption T MT LT E)) (f : ExporterFactory T MT LT E)
      → Known k f.traces_marshalers
      → Known k (new_factory options f).traces_marshalers
  unfolding new_factory apply_option
  new_factory-Known k [] f h = h
  new_factory-Known k (with_traces ms ∷ os) f h =
      new_factory-Known k os _ (with_marshalers-Known k ms f.traces_marshalers h)
  new_factory-Known k (with_metrics ms ∷ os) f h = new_factory-Known k os _ h
  new_factory-Known k (with_logs ms ∷ os) f h = new_factory-Known k os _ h

module _ {T MT LT V D L E : Type 0} (j : Jaeger T V D L E) (lib : TracesLibraries T D L E)
    (metrics : GoMap (Marshaler MT E)) (logs : GoMap (Marshaler LT E))
    (options : List (FactoryOption T MT LT E)) where
  -- The marshalers of traces of the factory that NewFactory makes with the options.
  abbrev pub factory_marshalers : GoMap (Marshaler T E)
  factory_marshalers =
      (new_factory options (record {
        traces_marshalers = traces_marshalers lib;
        metrics_marshalers = metrics;
        logs_marshalers = logs;
      })).traces_marshalers

  factory_marshalers-Encoded : Encoded factory_marshalers
  unfolding traces_marshalers
  factory_marshalers-Encoded = new_factory-Encoded options _ (with_marshalers-Encoded _ [] tt)

  factory_marshalers-Known : Known default_encoding factory_marshalers
  unfolding traces_marshalers
  factory_marshalers-Known =
      new_factory-Known default_encoding options _
        (table-Known (pdata_traces_marshaler lib.split lib.trace_key lib.proto default_encoding) _)

  curing-encoding :
      (cfg : Config) (m : Marshaler T E)
      → m.encoding ≡ cfg.encoding
      → (if cures_spans cfg then curing_marshaler j (curer j cfg) else m).encoding ≡ cfg.encoding
  unfolding cures_spans curing_marshaler curer
  curing-encoding cfg m h = ground (arith, h, str_eq_iff cfg.encoding (str "jaeger_proto"))

  new_traces_exporter-encoding :
      (cfg : Config) (m : Marshaler T E)
      → (new_traces_exporter j cfg factory_marshalers).1 ≡ some m
      → m.encoding ≡ cfg.encoding
  unfolding new_traces_exporter
  new_traces_exporter-encoding cfg m h =
      let r = new_keyed_exporter cfg.partition_traces_by_id cfg.encoding factory_marshalers in
      go r.1 refl
        (new_keyed_exporter-Encoded cfg.partition_traces_by_id cfg.encoding factory_marshalers
          factory_marshalers-Encoded).1
    where
      go :
          (found : Option (Marshaler T E))
          → (new_keyed_exporter cfg.partition_traces_by_id cfg.encoding factory_marshalers).1
            ≡ found
          → ((m : Marshaler T E)
              → (new_keyed_exporter cfg.partition_traces_by_id cfg.encoding factory_marshalers).1
                ≡ some m
              → m.encoding ≡ cfg.encoding)
          → m.encoding ≡ cfg.encoding
      go none e k = cc (rw (e, new_traces_exporter) at h)
      go (some n) e k =
          let same : (if cures_spans cfg then curing_marshaler j (curer j cfg) else n) ≡ m =
            cc (rw (e, new_traces_exporter) at h) in
          ap (λ (x : Marshaler T E). x.encoding) (sym same) ∙ curing-encoding cfg n (k n e)

  with_topic-encoding :
      (topic : Str) (cfg : Config) → (with_topic topic cfg).encoding ≡ cfg.encoding
  unfolding with_topic
  with_topic-encoding topic cfg = ground arith

  module _ {P : Type 0} where
    created-marshaler :
        (cfg : Config) (r : GoMap (Marshaler T E) × Option (Marshaler T E))
        (e : KafkaProducer T E P)
        → (created cfg r).1 ≡ some e
        → r.1 ≡ some e.marshaler
    created-marshaler cfg (ms, none) e h = cc
    created-marshaler cfg (ms, some m) e h =
        let same : record { cfg = cfg; producer = none; marshaler = m } ≡ e = cc in
        ap (λ (x : KafkaProducer T E P). some x.marshaler) same

    -- An exporter of traces that a factory creates, whatever marshalers its options added, has a marshaler of
    -- the encoding that the settings name, also where it cures the spans.
    pub create_traces_exporter-encoding :
        (cfg : Config) (e : KafkaProducer T E P)
        → (create_traces_exporter j cfg factory_marshalers).1 ≡ some e
        → e.marshaler.encoding ≡ cfg.encoding
    unfolding create_traces_exporter
    create_traces_exporter-encoding cfg e h =
        let cfg' = with_topic default_traces_topic cfg in
        new_traces_exporter-encoding cfg' e.marshaler
          (created-marshaler cfg' (new_traces_exporter j cfg' factory_marshalers) e h)
        ∙ with_topic-encoding default_traces_topic cfg

    created-some :
        (cfg : Config) (r : GoMap (Marshaler T E) × Option (Marshaler T E))
        → ((m : Marshaler T E) × (r.1 ≡ some m))
        → (e : KafkaProducer T E P) × ((created cfg r).1 ≡ some e)
    created-some cfg (ms, none) (m, h) = cc
    created-some cfg (ms, some n) (m, h) = (_, refl)

    -- The encoding of the default settings has a marshaler in every factory, so the exporter of traces is
    -- created for every settings with that encoding.
    pub create_traces_exporter-default :
        (cfg : Config)
        → cfg.encoding ≡ default_encoding
        → (e : KafkaProducer T E P) × ((create_traces_exporter j cfg factory_marshalers).1 ≡ some e)
    unfolding create_traces_exporter Known new_traces_exporter new_keyed_exporter
    create_traces_exporter-default cfg h =
        let cfg' = with_topic default_traces_topic cfg in
        let (m, l) = factory_marshalers-Known in
        let named : cfg'.encoding ≡ default_encoding =
          with_topic-encoding default_traces_topic cfg ∙ h in
        let found : lookup cfg'.encoding factory_marshalers ≡ some m =
          ap (λ (k : Str). lookup k factory_marshalers) named ∙ l in
        created-some cfg' (new_traces_exporter j cfg' factory_marshalers)
          (rw (new_traces_exporter, new_keyed_exporter, found) (_, refl))
