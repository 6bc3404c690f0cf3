-- ===== src/Pdata/Attributes.antt =====
-- pcommon.Map and pcommon.Value, which are not part of this repository: an interface of the
-- operations that the code calls, with the laws that their documentation states.
use hypertrace_collector.Prelude.{
  ◌≡◌, Bool, true, false, Option, none, some, if◌then◌else◌, Str, str, str_eq,
}
use hypertrace_collector.Prelude.GoMap.{GoMap, lookup}

-- `M` is pcommon.Map, `V` is pcommon.Value.
pub record AttributeMap (M V : Type 0) : Type 0 where
  -- `v, ok := m.Get(k)`
  pub get : M → Str → Option V
  -- `m.PutStr(k, s)`
  pub put_str : M → Str → Str → M
  -- `m.Remove(k)`
  pub remove : M → Str → M
  -- What `m.Range` visits, in its order.
  pub entries : M → GoMap V
  -- `v.AsString()`, `v.Str()` and the value that PutStr stores.
  pub as_string : V → Str
  pub str_of : V → Str
  pub str_value : Str → V
  pub get-put_str :
      (m : M) (k s j : Str)
      → get (put_str m k s) j ≡ (if str_eq k j then some (str_value s) else get m j)
  pub get-remove : (m : M) (k j : Str) → get (remove m k) j ≡ (if str_eq k j then none else get m j)
  pub get-entries : (m : M) (k : Str) → get m k ≡ lookup k (entries m)
  pub as_string-str_value : (s : Str) → as_string (str_value s) ≡ s
  pub str_of-str_value : (s : Str) → str_of (str_value s) ≡ s

-- `_, ok := m.Get(k)`
abbrev pub is_some {ℓ} : {A : Type ℓ} → Option A → Bool
is_some none = false
is_some (some _) = true

-- go.opentelemetry.io/collector/semconv/v1.6.1 and github.com/prometheus/common/model
abbrev pub attribute_service_name : Str
unfolding str
attribute_service_name = str "service.name"

abbrev pub attribute_service_namespace : Str
unfolding str
attribute_service_namespace = str "service.namespace"

abbrev pub attribute_service_instance_id : Str
unfolding str
attribute_service_instance_id = str "service.instance.id"

abbrev pub job_label : Str
unfolding str
job_label = str "job"

abbrev pub instance_label : Str
unfolding str
instance_label = str "instance"
