-- ===== src/Pdata/Traces.antt =====
-- ptrace.Traces as the tree that its accessors show, with the fields that the processors read.
use hypertrace_collector.Prelude.{List, map, Str}

pub record Span (M : Type 0) : Type 0 where
  pub name : Str
  pub attributes : M

pub record ScopeSpans (M : Type 0) : Type 0 where
  pub spans : List (Span M)

pub record ResourceSpans (M : Type 0) : Type 0 where
  pub resource : M
  pub scopes : List (ScopeSpans M)

abbrev pub Traces : Type 0 → Type 0
Traces M = List (ResourceSpans M)

-- The resource attributes of a batch, in order, and its spans.
abbrev pub resource_maps : {M : Type 0} → Traces M → List M
resource_maps ts = map (λ r. r.resource) ts
