-- ===== src/SpanCounter/Config/Labels.antt =====
-- What addUniqueLabelsToSpanConfigs does to the criteria.
use hypertrace_collector.Prelude.{
  ℕ, suc, ◌≡◌, false, List, [], ◌∷◌, ◌++◌, Str, is_empty, if◌then◌else◌, arith,
}
use hypertrace_collector.Prelude.All.{All, All-append}
use hypertrace_collector.SpanCounter.Config.{
  SpanConfig, ServiceConfig, TenantConfig, Config, label_spans, label_services, label_tenants,
  add_unique_labels_to_span_configs,
}

abbrev service_spans : List ServiceConfig → List SpanConfig
service_spans [] = []
service_spans (s ∷ ss) = s.span_configs ++ service_spans ss

-- Every criterion of a list of tenants.
abbrev pub all_spans : List TenantConfig → List SpanConfig
all_spans [] = []
all_spans (t ∷ ts) = service_spans t.service_configs ++ all_spans ts

abbrev pub HasLabel : SpanConfig → Type 0
HasLabel sc = is_empty sc.label ≡ false

module _ (fresh : ℕ → Str) (fresh_nonempty : (n : ℕ) → is_empty (fresh n) ≡ false) where
  labelled :
      (n : ℕ) (sc : SpanConfig)
      → HasLabel (if is_empty sc.label then record sc { label = fresh n } else sc)
  labelled n sc = ground (arith, fresh_nonempty n)

  label_spans-HasLabel : (n : ℕ) (scs : List SpanConfig) → All HasLabel (label_spans fresh n scs).0
  unfolding label_spans
  label_spans-HasLabel n [] = tt
  label_spans-HasLabel n (sc ∷ scs) =
      (labelled n sc, label_spans-HasLabel (if is_empty sc.label then suc n else n) scs)

  label_services-HasLabel :
      (n : ℕ) (ss : List ServiceConfig) → All HasLabel (service_spans (label_services fresh n ss).0)
  unfolding label_services
  label_services-HasLabel n [] = tt
  label_services-HasLabel n (s ∷ ss) =
      All-append HasLabel (label_spans fresh n s.span_configs).0 _
        (label_spans-HasLabel n s.span_configs)
        (label_services-HasLabel (label_spans fresh n s.span_configs).1 ss)

  label_tenants-HasLabel :
      (n : ℕ) (ts : List TenantConfig) → All HasLabel (all_spans (label_tenants fresh n ts).0)
  unfolding label_tenants
  label_tenants-HasLabel n [] = tt
  label_tenants-HasLabel n (t ∷ ts) =
      All-append HasLabel (service_spans (label_services fresh n t.service_configs).0) _
        (label_services-HasLabel n t.service_configs)
        (label_tenants-HasLabel (label_services fresh n t.service_configs).1 ts)

  -- Where no identifier that is made is empty, every criterion of every service of every tenant has a
  -- label that is not empty after labelling.
  pub add_unique_labels-HasLabel :
      (c : Config)
      → All HasLabel (all_spans (add_unique_labels_to_span_configs fresh c).tenant_configs)
  unfolding add_unique_labels_to_span_configs
  add_unique_labels-HasLabel c = label_tenants-HasLabel 0 c.tenant_configs
