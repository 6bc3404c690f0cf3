-- ===== src/SpanCounter/Config.antt =====
-- processors/spancounter/config.go, factory.go and metrics.go, and newProcessor with its map of
-- tenants (spancounterprocessor.go).
pub mod Labels
pub mod Tenants
use hypertrace_collector.Prelude.{
  ℕ, suc, ◌+◌, Bool, List, [], ◌∷◌, Str, str, is_empty, if◌then◌else◌,
}
use hypertrace_collector.Prelude.GoMap.{GoMap, insert}
use hypertrace_collector.Pdata.Telemetry.{View}

pub record SpanAttribute : Type 0 where
  pub key : Str
  pub value : Str

pub record SpanConfig : Type 0 where
  pub label : Str
  pub span_name : Str
  pub span_attributes : List SpanAttribute

pub record ServiceConfig : Type 0 where
  pub service_name : Str
  pub span_configs : List SpanConfig

pub record TenantConfig : Type 0 where
  pub tenant_id : Str
  pub service_configs : List ServiceConfig

pub record Config : Type 0 where
  pub tenant_id_attribute_key : Str
  pub tenant_configs : List TenantConfig

abbrev pub default_tenant_id_attribute_key : Str
unfolding str
default_tenant_id_attribute_key = str "tenant-id"

abbrev pub create_default_config : Config
create_default_config = record {
  tenant_id_attribute_key = default_tenant_id_attribute_key;
  tenant_configs = [];
}

-- addUniqueLabelsToSpanConfigs. `uuid.NewString()` is a stream, `fresh n` its n-th result; each
-- function returns how many were taken.
pub label_spans : (ℕ → Str) → ℕ → List SpanConfig → List SpanConfig × ℕ
label_spans fresh n [] = ([], n)
label_spans fresh n (sc ∷ scs) =
    let m = if is_empty sc.label then suc n else n in
    let (rest, k) = label_spans fresh m scs in
    ((if is_empty sc.label then record sc { label = fresh n } else sc) ∷ rest, k)

pub label_services : (ℕ → Str) → ℕ → List ServiceConfig → List ServiceConfig × ℕ
unfolding label_spans
label_services fresh n [] = ([], n)
label_services fresh n (s ∷ ss) =
    let (spans, m) = label_spans fresh n s.span_configs in
    let (rest, k) = label_services fresh m ss in (record s { span_configs = spans } ∷ rest, k)

pub label_tenants : (ℕ → Str) → ℕ → List TenantConfig → List TenantConfig × ℕ
unfolding label_services
label_tenants fresh n [] = ([], n)
label_tenants fresh n (t ∷ ts) =
    let (services, m) = label_services fresh n t.service_configs in
    let (rest, k) = label_tenants fresh m ts in (record t { service_configs = services } ∷ rest, k)

pub add_unique_labels_to_span_configs : (ℕ → Str) → Config → Config
unfolding label_tenants
add_unique_labels_to_span_configs fresh c = record c {
  tenant_configs = (label_tenants fresh 0 c.tenant_configs).0;
}

abbrev pub ServicesMap : Type 0
ServicesMap = GoMap (List SpanConfig)

-- The inner loop of createTenantsMap: later services of one name replace earlier ones.
unfoldable pub services_map : ServicesMap → List ServiceConfig → ServicesMap
services_map sm [] = sm
services_map sm (sc ∷ scs) =
    services_map
      (if is_empty sc.service_name then sm else insert sc.service_name sc.span_configs sm) scs

unfoldable pub tenants_map : GoMap ServicesMap → List TenantConfig → GoMap ServicesMap
unfolding services_map
tenants_map m [] = m
tenants_map m (tc ∷ tcs) =
    tenants_map
      (if is_empty tc.tenant_id
        then m
        else insert tc.tenant_id (services_map [] tc.service_configs) m)
      tcs

-- createTenantsMap
unfoldable pub create_tenants_map : Config → GoMap ServicesMap
unfolding tenants_map
create_tenants_map c = tenants_map [] c.tenant_configs

pub record SpanCounter : Type 0 where
  pub tenant_id_attribute_key : Str
  pub tenants : GoMap ServicesMap

-- newProcessor
pub new_processor : Config → SpanCounter
unfolding create_tenants_map
new_processor c = record {
  tenant_id_attribute_key =
      if is_empty c.tenant_id_attribute_key
      then default_tenant_id_attribute_key
      else c.tenant_id_attribute_key;
  tenants = create_tenants_map c;
}

-- createTracesProcessor
pub create_traces_processor : (ℕ → Str) → Config → SpanCounter
unfolding add_unique_labels_to_span_configs new_processor
create_traces_processor fresh c = new_processor (add_unique_labels_to_span_configs fresh c)

abbrev pub tag_span_criteria_label : Str
unfolding str
tag_span_criteria_label = str "span-criteria-label"

abbrev pub stat_criteria_based_span_count : Str
unfolding str
stat_criteria_based_span_count = str "criteria_span_count"

abbrev pub metric_views : List View
metric_views =
    record {
      name = stat_criteria_based_span_count;
      description = str "Number of spans received from a tenant that match a certain criteria";
      measure = stat_criteria_based_span_count;
      tag_keys = tag_span_criteria_label ∷ [];
    }
    ∷ []
