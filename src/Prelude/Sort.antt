-- ===== src/Prelude/Sort.antt =====
-- `sort.Strings`: insertion into a list that is ordered byte by byte.
pub mod Order
use mathlib.Core.List.{List, [], ◌∷◌}
use mathlib.Core.Bool.{Bool, true, false}
use hypertrace_collector.Prelude.Tests.{ltb, ◌==◌, if◌then◌else◌}
use hypertrace_collector.Prelude.Text.{Str}

-- `s <= t`
unfoldable pub str_le : Str → Str → Bool
str_le [] _ = true
str_le (x ∷ s) [] = false
str_le (x ∷ s) (y ∷ t) = if ltb x y then true else if x == y then str_le s t else false

unfoldable pub insert_sorted : Str → List Str → List Str
insert_sorted s [] = s ∷ []
insert_sorted s (t ∷ ts) =
    let rest = insert_sorted s ts in if str_le s t then s ∷ t ∷ ts else t ∷ rest

unfoldable pub sort_strings : List Str → List Str
sort_strings [] = []
sort_strings (s ∷ ss) = insert_sorted s (sort_strings ss)
