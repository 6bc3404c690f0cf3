-- ===== src/Tests/Sample.antt =====
-- Concrete instances of the interfaces: attribute maps and tag maps as association lists.
use hypertrace_collector.Prelude.{
  ℕ, ◌+◌, ◌≡◌, refl, true, none, some, List, [], ◌∷◌, Str, str_eq, length, if◌then◌else◌, arith,
  str_eq_iff,
}
use hypertrace_collector.Prelude.GoMap.{GoMap, lookup, insert, erase, lookup-insert, lookup-erase}
use hypertrace_collector.Pdata.Attributes.{AttributeMap}
use hypertrace_collector.Pdata.Metrics.{Metrics, ScopeMetrics}
use hypertrace_collector.Pdata.Traces.{Traces, ScopeSpans}
use hypertrace_collector.Pdata.Telemetry.{TagMap, inserted}

abbrev pub attrs : AttributeMap (GoMap Str) Str
attrs = record {
  get = λ m k. lookup k m;
  put_str = λ m k s. insert k s m;
  remove = λ m k. erase k m;
  entries = λ m. m;
  as_string = λ v. v;
  str_of = λ v. v;
  str_value = λ s. s;
  get-put_str = λ m k s j. lookup-insert k j s m;
  get-remove = λ m k j. lookup-erase k j m;
  get-entries = λ m k. refl;
  as_string-str_value = λ s. refl;
  str_of-str_value = λ s. refl;
}

unfoldable pub insert_tag : GoMap Str → Str → Str → GoMap Str
insert_tag t k v = elim (lookup k t) [ none ↦ insert k v t | some w ↦ t ]

pub value-insert_tag :
    (t : GoMap Str) (k v j : Str)
    → lookup j (insert_tag t k v)
      ≡ (if str_eq k j then inserted (lookup k t) true v else lookup j t)
unfolding insert_tag
value-insert_tag t k v j = ground (arith, lookup-insert k j v t, str_eq_iff k j)

abbrev pub tags : TagMap (GoMap Str)
tags = record {
  insert = insert_tag;
  value = λ t k. lookup k t;
  valid_value = λ _. true;
  value-insert = value-insert_tag;
}

module _ {M D : Type 0} where
  abbrev scope_count : List (ScopeMetrics M D) → ℕ
  scope_count [] = 0
  scope_count (s ∷ ss) = length s.metrics + scope_count ss

  -- `metrics.MetricCount()`
  abbrev pub metric_count : Metrics M D → ℕ
  metric_count [] = 0
  metric_count (r ∷ rs) = scope_count r.scopes + metric_count rs

module _ {M : Type 0} where
  abbrev scope_span_count : List (ScopeSpans M) → ℕ
  scope_span_count [] = 0
  scope_span_count (s ∷ ss) = length s.spans + scope_span_count ss

  -- `traces.SpanCount()`
  abbrev pub span_count : Traces M → ℕ
  span_count [] = 0
  span_count (r ∷ rs) = scope_span_count r.scopes + span_count rs
