-- ===== src/ResourceAttrs/Merge.antt =====
-- What becomes of the attribute map of one data point.
use hypertrace_collector.Prelude.{
  ◌≡◌, refl, ◌∙◌, ap, Bool, true, false, ◌&&◌, ◌||◌, Option, none, some, [], ◌∷◌, Str, str, str_eq,
  str_eq_iff, if◌then◌else◌, Bool-cases, inl, inr, arith,
}
use hypertrace_collector.Prelude.GoMap.{GoMap, lookup}
use hypertrace_collector.Pdata.Attributes.{
  AttributeMap, is_some, attribute_service_name, attribute_service_instance_id, job_label,
  instance_label,
}
use hypertrace_collector.ResourceAttrs.{
  oc_service_instance_id_attr_key, oc_service_name_attr_key, copy_attribute, skipped, remove_labels,
}

abbrev pub or_else {ℓ} : {A : Type ℓ} → Option A → Option A → Option A
or_else none o = o
or_else (some a) _ = some a

-- The keys that the exporter adds itself, or whose sanitized form clashes with one that it adds.
abbrev pub dropped : Bool → Bool → Str → Bool
dropped has_name has_id j =
    (has_name && (str_eq job_label j || str_eq oc_service_name_attr_key j))
    || (has_id && str_eq instance_label j)

module _ {M V : Type 0} (attrs : AttributeMap M V) where
  open attrs use {get, put_str, remove, entries, as_string, str_value}

  -- The copying of the resource attributes `es` into one map.
  unfoldable pub copy_map : Bool → Bool → GoMap V → M → M
  unfolding copy_attribute skipped
  copy_map has_name has_id [] am = am
  copy_map has_name has_id ((key, v) ∷ rest) am =
      copy_map has_name has_id rest
        (if skipped has_name has_id key then am else copy_attribute attrs key v am)

  -- What becomes of the map `am` of a data point under the resource attributes `r`.
  unfoldable pub merged : M → M → M
  unfolding copy_map remove_labels
  merged r am =
      let has_name = is_some (get r attribute_service_name) in
      let has_id = is_some (get r attribute_service_instance_id) in
      let copied = copy_map has_name has_id (entries r) am in
      if has_name || has_id then remove_labels attrs has_name has_id copied else copied

  -- The value of a resource attribute, as it is stored at a data point.
  abbrev pub stored : Option V → Option V
  stored none = none
  stored (some v) = some (str_value (as_string v))

  get-copy_attribute :
      (key j : Str) (v : V) (am : M)
      → str_eq attribute_service_instance_id j ≡ false
      → get (copy_attribute attrs key v am) j
        ≡ or_else (get am j) (if str_eq key j then some (str_value (as_string v)) else none)
  unfolding copy_attribute
  get-copy_attribute key j v am h = ground (
    arith,
    attrs.get-put_str am key (as_string v) j,
    str_eq_iff key j,
    str_eq_iff key attribute_service_instance_id,
    str_eq_iff attribute_service_instance_id j,
  )

  skipped-eq : (a b : Bool) (key j : Str) → str_eq key j ≡ true → skipped a b key ≡ skipped a b j
  skipped-eq a b key j h = ap (skipped a b) ((str_eq_iff key j).0 h)

  get-copy_map :
      (a b : Bool) (es : GoMap V) (am : M) (j : Str)
      → str_eq attribute_service_instance_id j ≡ false
      → get (copy_map a b es am) j
        ≡ or_else (get am j) (if skipped a b j then none else stored (lookup j es))
  unfolding copy_map lookup
  get-copy_map a b [] am j h = ground arith
  get-copy_map a b ((key, v) ∷ rest) am j h =
      get-copy_map a b rest (if skipped a b key then am else copy_attribute attrs key v am) j h
      ∙ ground (arith, get-copy_attribute key j v am h, skipped-eq a b key j)

  get-remove_labels :
      (a b : Bool) (am : M) (j : Str)
      → get (remove_labels attrs a b am) j ≡ (if dropped a b j then none else get am j)
  unfolding remove_labels
  get-remove_labels a b am j =
      let am1 = remove am job_label in
      let am2 = remove am1 oc_service_name_attr_key in
      ground (
        arith,
        attrs.get-remove am job_label j,
        attrs.get-remove am1 oc_service_name_attr_key j,
        attrs.get-remove am2 instance_label j,
        attrs.get-remove am instance_label j,
      )

  skipped-dropped : (a b : Bool) (j : Str) → dropped a b j ≡ false → skipped a b j ≡ false
  unfolding skipped
  skipped-dropped a b j h = ground (
    arith,
    str_eq_iff j job_label,
    str_eq_iff job_label j,
    str_eq_iff j instance_label,
    str_eq_iff instance_label j,
  )

  -- What a data point shows at a key other than "service.instance.id": nothing at the labels that the
  -- exporter adds ("job" and "service_name" if the resource has a service name, "instance" if it has a
  -- service instance id); elsewhere its own value, or else the resource's, as text.
  pub get-merged :
      (r am : M) (j : Str)
      → str_eq attribute_service_instance_id j ≡ false
      → get (merged r am) j ≡ (
          if dropped
            (is_some (get r attribute_service_name))
            (is_some (get r attribute_service_instance_id))
            j
          then none
          else or_else (get am j) (stored (get r j)))
  unfolding merged
  get-merged r am j h =
      let a = is_some (get r attribute_service_name) in
      let b = is_some (get r attribute_service_instance_id) in
      ground (
        arith,
        get-remove_labels a b (copy_map a b (entries r) am) j,
        get-copy_map a b (entries r) am j h,
        skipped-dropped a b j,
        attrs.get-entries r j,
      )

  -- The map keeps the key "service_instance_id" once it has it, and then "service.instance.id" stays.
  copy_attribute-keeps :
      (key : Str) (v w : V) (am : M)
      → get am oc_service_instance_id_attr_key ≡ some w
      → (get (copy_attribute attrs key v am) oc_service_instance_id_attr_key ≡ some w)
        × (get (copy_attribute attrs key v am) attribute_service_instance_id
            ≡ get am attribute_service_instance_id)
  unfolding copy_attribute
  copy_attribute-keeps key v w am h = ground (
    arith,
    attrs.get-put_str am key (as_string v) oc_service_instance_id_attr_key,
    attrs.get-put_str am key (as_string v) attribute_service_instance_id,
    str_eq_iff key oc_service_instance_id_attr_key,
    str_eq_iff key attribute_service_instance_id,
  )

  copy_map-keeps :
      (a b : Bool) (es : GoMap V) (w : V) (am : M)
      → get am oc_service_instance_id_attr_key ≡ some w
      → get (copy_map a b es am) attribute_service_instance_id
        ≡ get am attribute_service_instance_id
  unfolding copy_map
  copy_map-keeps a b [] w am h = refl
  copy_map-keeps a b ((key, v) ∷ rest) w am h = elim (Bool-cases (skipped a b key)) [
    | inl s ↦ rw s (copy_map-keeps a b rest w am h)
    | inr s ↦ rw s (
        let (x, y) = copy_attribute-keeps key v w am h in
        copy_map-keeps a b rest w (copy_attribute attrs key v am) x ∙ y)
  ]

  dropped-instance_id : (a b : Bool) → dropped a b attribute_service_instance_id ≡ false
  unfolding str str_eq
  dropped-instance_id true true = refl
  dropped-instance_id true false = refl
  dropped-instance_id false true = refl
  dropped-instance_id false false = refl

  -- A data point that has the OpenCensus attribute "service_instance_id" shows at
  -- "service.instance.id" what it showed before, whatever the resource says.
  get-merged_instance_id :
      (r am : M) (w : V)
      → get am oc_service_instance_id_attr_key ≡ some w
      → get (merged r am) attribute_service_instance_id ≡ get am attribute_service_instance_id
  unfolding merged
  get-merged_instance_id r am w h =
      let a = is_some (get r attribute_service_name) in
      let b = is_some (get r attribute_service_instance_id) in
      ground (
        arith,
        get-remove_labels a b (copy_map a b (entries r) am) attribute_service_instance_id,
        dropped-instance_id a b,
        copy_map-keeps a b (entries r) w am h,
      )
