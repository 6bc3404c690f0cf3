-- ===== src/JaegerReceiver/Request/Keys.antt =====
-- The metadata that toMetadata builds from the headers of a request.
use hypertrace_collector.Prelude.{
  ◌≡◌, refl, List, [], ◌∷◌, ◌++◌, append_assoc, append-nil, Str, str_eq, if◌then◌else◌, Bool-cases,
  inl, inr,
}
use hypertrace_collector.Prelude.GoMap.{GoMap}
use hypertrace_collector.JaegerReceiver.Request.{Metadata, append_all, to_metadata}

-- The values of all headers whose keys are `key` but for their case.
unfoldable pub header_values : (Str → Str) → Str → GoMap (List Str) → List Str
header_values lower key [] = []
header_values lower key ((k, vs) ∷ header) =
    let rest = header_values lower key header in
    if str_eq (lower k) (lower key) then vs ++ rest else rest

module _ {D : Type 0} (md : Metadata D) where
  get-append_all :
      (header : GoMap (List Str)) (d : D) (key : Str)
      → md.get (append_all md d header) key ≡ md.get d key ++ header_values md.lower key header
  unfolding append_all header_values
  get-append_all [] d key = rw (append-nil (md.get d key)) refl
  get-append_all ((k, vs) ∷ header) d key = elim (Bool-cases (str_eq (md.lower k) (md.lower key))) [
    | inl e ↦ rw (
      get-append_all header (md.append d k vs) key,
      md.get-append d k key vs,
      e,
      append_assoc (md.get d key) vs (header_values md.lower key header),
    )
    | inr e ↦ rw (get-append_all header (md.append d k vs) key, md.get-append d k key vs, e)
  ]

  pub get-to_metadata :
      (header : GoMap (List Str)) (key : Str)
      → md.get (to_metadata md header) key ≡ header_values md.lower key header
  unfolding to_metadata
  get-to_metadata header key = rw (get-append_all header md.empty key, md.get-empty key)
