-- ===== src/SpanCounter/Process/Matching.antt =====
-- spanMatchesConfig against the criteria as their documentation words them.
use hypertrace_collector.Prelude.{
  ◌≡◌, refl, ◌↔◌, ◌⊎◌, inl, inr, true, false, some, List, [], ◌∷◌, Str, str_eq, str_eq_iff,
  is_empty, not, ◌||◌, ◌&&◌, &&_iff, Option-cases, arith,
}
use hypertrace_collector.Prelude.All.{All}
use hypertrace_collector.Pdata.Attributes.{AttributeMap}
use hypertrace_collector.Pdata.Traces.{Span}
use hypertrace_collector.SpanCounter.Config.{SpanAttribute, SpanConfig}
use hypertrace_collector.SpanCounter.Process.{
  attribute_matches, attributes_match, span_matches_config,
}

is_empty_iff : (s : Str) → (is_empty s ≡ true) ↔ (s ≡ [])
is_empty_iff [] = (λ _. refl, λ _. refl)
is_empty_iff (_ ∷ _) = (λ h. cc, λ h. cc)

module _ {M V : Type 0} (attrs : AttributeMap M V) where
  open attrs use {get, str_of}

  -- The attribute is there, and has the configured value if one is configured.
  abbrev HasAttribute : M → SpanAttribute → Type 0
  HasAttribute m a = (v : V) × (get m a.key ≡ some v) × ((a.value ≡ []) ⊎ (a.value ≡ str_of v))

  abbrev pub Matches : Span M → SpanConfig → Type 0
  Matches span c =
      ((c.span_name ≡ []) ⊎ (span.name ≡ c.span_name))
      × All (HasAttribute span.attributes) c.span_attributes

  value_matches :
      (a : SpanAttribute) (v : V)
      → ((is_empty a.value || str_eq a.value (str_of v)) ≡ true)
        ↔ ((a.value ≡ []) ⊎ (a.value ≡ str_of v))
  value_matches a v = ground (arith, is_empty_iff a.value, str_eq_iff a.value (str_of v))

  attribute_matches_sound :
      (m : M) (a : SpanAttribute) → attribute_matches attrs m a ≡ true → HasAttribute m a
  unfolding attribute_matches
  attribute_matches_sound m a h = elim (Option-cases (get m a.key)) [
    | inl e ↦ ground (arith, e)
    | inr (v, e) ↦ (v, e, (value_matches a v).0 (rw (e, attribute_matches) at h))
  ]

  attribute_matches_complete :
      (m : M) (a : SpanAttribute) → HasAttribute m a → attribute_matches attrs m a ≡ true
  unfolding attribute_matches
  attribute_matches_complete m a (v, e, h) = rw (e, attribute_matches) ((value_matches a v).1 h)

  attributes_match_iff :
      (m : M) (cs : List SpanAttribute)
      → (attributes_match attrs m cs ≡ true) ↔ All (HasAttribute m) cs
  unfolding attributes_match
  attributes_match_iff m [] = (λ _. tt, λ _. refl)
  attributes_match_iff m (a ∷ cs) = (
    λ h.
        let (x, y) = (&&_iff _ _).0 h in
        (attribute_matches_sound m a x, (attributes_match_iff m cs).0 y),
    λ (x, y). (&&_iff _ _).1 (attribute_matches_complete m a x, (attributes_match_iff m cs).1 y),
  )

  name_matches :
      (span : Span M) (c : SpanConfig)
      → ((not (is_empty c.span_name) && not (str_eq span.name c.span_name)) ≡ false)
        ↔ ((c.span_name ≡ []) ⊎ (span.name ≡ c.span_name))
  name_matches span c = ground (arith, is_empty_iff c.span_name, str_eq_iff span.name c.span_name)

  -- A span counts for a criterion exactly when its name is the configured one, or none is configured,
  -- and it has every configured attribute, with the configured value where one is configured.
  pub span_matches_config_iff :
      (span : Span M) (c : SpanConfig) → (span_matches_config attrs span c ≡ true) ↔ Matches span c
  unfolding span_matches_config
  span_matches_config_iff span c =
      ground (arith, name_matches span c, attributes_match_iff span.attributes c.span_attributes)
