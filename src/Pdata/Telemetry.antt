-- ===== src/Pdata/Telemetry.antt =====
-- go.opencensus.io: the tag map of a context, as an interface, and the measurements that a call of
-- `stats.Record` leaves behind.
use hypertrace_collector.Prelude.{
  ℕ, ◌≡◌, Bool, Option, none, some, List, if◌then◌else◌, Str, str, str_eq,
}

-- The value of a key after `tag.New(ctx, tag.Insert(key, v))`: Insert "does not update" a key that
-- the map has, and an invalid value is refused (the code drops that error).
abbrev pub inserted : Option Str → Bool → Str → Option Str
inserted (some old) valid v = some old
inserted none valid v = if valid then some v else none

-- `T` is the tag map that a context carries.
pub record TagMap (T : Type 0) : Type 0 where
  pub insert : T → Str → Str → T
  pub value : T → Str → Option Str
  pub valid_value : Str → Bool
  pub value-insert :
      (t : T) (k v j : Str)
      → value (insert t k v) j
        ≡ (if str_eq k j then inserted (value t k) (valid_value v) v else value t j)

-- One recorded measurement: the measure's name, the tags of the context, and the amount.
pub record Measurement (T : Type 0) : Type 0 where
  pub measure : Str
  pub tags : T
  pub amount : ℕ

-- The processors' constants: their `tag.MustNewKey("tenant-id")`.
abbrev pub tag_tenant_id : Str
unfolding str
tag_tenant_id = str "tenant-id"

-- A context.Context: the tag map, and the result of `metadata.FromIncomingContext`, with `md.Get` as
-- a function (none: the context carries no metadata).
pub record Context (T : Type 0) : Type 0 where
  pub incoming : Option (Str → List Str)
  pub tags : T

-- A `view.View`: every view of this repository aggregates by `view.Sum()`.
pub record View : Type 0 where
  pub name : Str
  pub description : Str
  pub measure : Str
  pub tag_keys : List Str
