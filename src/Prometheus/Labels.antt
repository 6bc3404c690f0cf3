-- ===== src/Prometheus/Labels.antt =====
-- exporter/prometheusexporter/utils.go: the job and the instance of a resource.
use hypertrace_collector.Prelude.{
  ◌||◌, Option, none, some, [], ◌∷◌, ◌++◌, Str, str, is_empty, if◌then◌else◌,
}
use hypertrace_collector.Pdata.Attributes.{
  AttributeMap, attribute_service_name, attribute_service_namespace, attribute_service_instance_id,
}

-- model.SeparatorByte, 0xff
abbrev separator_string : Str
separator_string = 255 ∷ []

abbrev or_blank : Option Str → Str
or_blank none = []
or_blank (some s) = s

module _ {M V : Type 0} (attrs : AttributeMap M V) where
  open attrs use {get, as_string}

  -- extractInstance
  unfoldable pub extract_instance : M → Option Str
  extract_instance m = elim (get m attribute_service_instance_id) [
    | none ↦ none
    | some v ↦ some (as_string v)
  ]

  -- extractJob
  unfoldable pub extract_job : M → Option Str
  extract_job m = elim (get m attribute_service_name) [
    | none ↦ none
    | some name ↦ elim (get m attribute_service_namespace) [
      | none ↦ some (as_string name)
      | some namespace ↦ some (as_string namespace ++ (str "/" ++ as_string name))
    ]
  ]

  -- resourceSignature
  unfoldable pub resource_signature : M → Str
  unfolding extract_job extract_instance
  resource_signature m =
      let job = or_blank (extract_job m) in
      let inst = or_blank (extract_instance m) in
      if is_empty job || is_empty inst then [] else job ++ (separator_string ++ inst)
