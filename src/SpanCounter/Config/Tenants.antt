-- ===== src/SpanCounter/Config/Tenants.antt =====
-- The map that createTenantsMap builds: who is in it, and with what.
use hypertrace_collector.Prelude.{
  ◌≡◌, refl, ap, ◌∙◌, true, false, Option, none, some, List, [], ◌∷◌, Str, str_eq, is_empty,
  if◌then◌else◌, arith,
}
use hypertrace_collector.Prelude.GoMap.{GoMap, lookup, insert, lookup-insert, lookup-nil}
use hypertrace_collector.SpanCounter.Config.{
  SpanConfig, ServiceConfig, TenantConfig, Config, ServicesMap, services_map, tenants_map,
  create_tenants_map,
}

-- The criteria of the last service of a name.
abbrev last_service : Str → List ServiceConfig → Option (List SpanConfig)
last_service s [] = none
last_service s (sc ∷ scs) = elim (last_service s scs) [
  | some cs ↦ some cs
  | none ↦ if str_eq sc.service_name s then some sc.span_configs else none
]

-- The services of the last tenant of an id.
abbrev pub last_tenant : Str → List TenantConfig → Option (List ServiceConfig)
last_tenant t [] = none
last_tenant t (tc ∷ tcs) = elim (last_tenant t tcs) [
  | some ss ↦ some ss
  | none ↦ if str_eq tc.tenant_id t then some tc.service_configs else none
]

abbrev or_else : {A : Type 0} → Option A → Option A → Option A
or_else none o = o
or_else (some a) _ = some a

abbrev built : Option (List ServiceConfig) → Option ServicesMap
built none = none
built (some ss) = some (services_map [] ss)

not_empty : (s t : Str) → is_empty s ≡ false → is_empty t ≡ true → str_eq t s ≡ false
not_empty [] t h k = cc
not_empty (x ∷ s) [] h k = unfold str_eq in refl
not_empty (x ∷ s) (y ∷ t) h k = cc

lookup-services_map :
    (s : Str) (sm : ServicesMap) (scs : List ServiceConfig)
    → is_empty s ≡ false
    → lookup s (services_map sm scs) ≡ or_else (last_service s scs) (lookup s sm)
unfolding services_map
lookup-services_map s sm [] h = refl
lookup-services_map s sm (sc ∷ scs) h =
    lookup-services_map s
      (if is_empty sc.service_name then sm else insert sc.service_name sc.span_configs sm) scs h
    ∙ ground
        (arith, not_empty s sc.service_name h, lookup-insert sc.service_name s sc.span_configs sm)

lookup-tenants_map :
    (t : Str) (m : GoMap ServicesMap) (tcs : List TenantConfig)
    → is_empty t ≡ false
    → lookup t (tenants_map m tcs) ≡ or_else (built (last_tenant t tcs)) (lookup t m)
unfolding tenants_map
lookup-tenants_map t m [] h = refl
lookup-tenants_map t m (tc ∷ tcs) h =
    lookup-tenants_map t
      (if is_empty tc.tenant_id
        then m
        else insert tc.tenant_id (services_map [] tc.service_configs) m)
      tcs h
    ∙ ground (
      arith,
      not_empty t tc.tenant_id h,
      lookup-insert tc.tenant_id t (services_map [] tc.service_configs) m,
    )

abbrev of_service : Str → Option ServicesMap → Option (List SpanConfig)
of_service s none = none
of_service s (some services) = lookup s services

-- `m[t][s]`
abbrev pub criteria_for : GoMap ServicesMap → Str → Str → Option (List SpanConfig)
criteria_for m t s = of_service s (lookup t m)

abbrev pub configured : Str → Option (List ServiceConfig) → Option (List SpanConfig)
configured s none = none
configured s (some ss) = last_service s ss

or_else-none : {A : Type 0} (o : Option A) → or_else o none ≡ o
or_else-none none = refl
or_else-none (some a) = refl

of_service-built :
    (s : Str) (o : Option (List ServiceConfig))
    → is_empty s ≡ false
    → of_service s (or_else (built o) none) ≡ configured s o
of_service-built s none h = refl
of_service-built s (some ss) h =
    lookup-services_map s [] ss h ∙ rw lookup-nil (or_else-none (last_service s ss))

-- For a tenant id and a service name that are not empty, the map holds the criteria of the last service
-- of that name in the last tenant configuration of that id, and nothing if there is none.
pub create_tenants_map_lem :
    (c : Config) (t s : Str)
    → is_empty t ≡ false
    → is_empty s ≡ false
    → criteria_for (create_tenants_map c) t s ≡ configured s (last_tenant t c.tenant_configs)
unfolding create_tenants_map
create_tenants_map_lem c t s ht hs =
    ap (of_service s) (lookup-tenants_map t [] c.tenant_configs ht)
    ∙ rw lookup-nil (of_service-built s (last_tenant t c.tenant_configs) hs)
