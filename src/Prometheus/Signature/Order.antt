-- ===== src/Prometheus/Signature/Order.antt =====
-- The signature of a time series, and the order of its data point's attributes.
use mathlib.Core.List.{Permᴰ}
use hypertrace_collector.Prelude.{◌≡◌, refl, ◌∙◌, ap, ap₂, ◌++◌, Str}
use hypertrace_collector.Prelude.GoMap.{GoMap}
use hypertrace_collector.Prelude.Sort.{insert_sorted, sort_strings}
use hypertrace_collector.Prelude.Sort.Order.{insert_sorted_comm}
use hypertrace_collector.Pdata.Attributes.{AttributeMap}
use hypertrace_collector.Pdata.Metrics.{Metric}
use hypertrace_collector.Prometheus.Signature.{
  MetricType, star, attribute_parts, timeseries_signature,
}

module _ {M V : Type 0} (attrs : AttributeMap M V) where
  open attrs use {entries, as_string}

  abbrev part : Str × V → Str
  part e = e.0 ++ (star ++ as_string e.1)

  sort_strings-attribute_parts :
      {es fs : GoMap V}
      → Permᴰ es fs
      → sort_strings (attribute_parts attrs es) ≡ sort_strings (attribute_parts attrs fs)
  unfolding attribute_parts sort_strings
  sort_strings-attribute_parts Permᴰ.nil = refl
  sort_strings-attribute_parts (Permᴰ.cons e p) =
      ap₂ insert_sorted (ap part e) (sort_strings-attribute_parts p)
  sort_strings-attribute_parts (Permᴰ.swap {a} {b} {l = l} e₁ e₂) =
      insert_sorted_comm (part a) (part b) (sort_strings (attribute_parts attrs l))
      ∙ ap₂ (λ s t. insert_sorted s (insert_sorted t (sort_strings (attribute_parts attrs l))))
          (ap part e₂) (ap part e₁)
  sort_strings-attribute_parts (Permᴰ.trans p q) =
      sort_strings-attribute_parts p ∙ sort_strings-attribute_parts q

  -- Two data points of a metric whose attributes differ in their order only belong to the same time
  -- series.
  pub timeseries_signature-Perm :
      {D : Type 0} (type_string : MetricType → Str) (scope : Str) (metric : Metric M D) (a b r : M)
      → Permᴰ (entries a) (entries b)
      → timeseries_signature attrs type_string scope metric a r
        ≡ timeseries_signature attrs type_string scope metric b r
  unfolding timeseries_signature
  timeseries_signature-Perm type_string scope metric a b r p =
      rw (sort_strings-attribute_parts p) refl
