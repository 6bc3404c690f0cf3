-- ===== src/Prelude/Sort/Order.antt =====
-- The order of Go strings, and insertion into a sorted list.
use mathlib.Core.Path.{◌≡◌, refl}
use mathlib.Core.List.{List, [], ◌∷◌}
use mathlib.Core.Bool.{true, false}
use native.Mathlib.Omega.{arith}
use hypertrace_collector.Prelude.Text.{Str}
use hypertrace_collector.Prelude.Sort.{str_le, insert_sorted}

str_le_total : (s t : Str) → str_le s t ≡ false → str_le t s ≡ true
unfolding str_le
str_le_total [] t h = cc
str_le_total (x ∷ s) [] h = refl
str_le_total (x ∷ s) (y ∷ t) h = ground (arith, str_le_total s t)

str_le_antisym : (s t : Str) → str_le s t ≡ true → str_le t s ≡ true → s ≡ t
unfolding str_le
str_le_antisym [] [] h i = refl
str_le_antisym [] (y ∷ t) h i = cc
str_le_antisym (x ∷ s) [] h i = cc
str_le_antisym (x ∷ s) (y ∷ t) h i = ground (arith, str_le_antisym s t)

str_le_trans : (s t u : Str) → str_le s t ≡ true → str_le t u ≡ true → str_le s u ≡ true
unfolding str_le
str_le_trans [] t u h i = refl
str_le_trans (x ∷ s) [] u h i = cc
str_le_trans (x ∷ s) (y ∷ t) [] h i = cc
str_le_trans (x ∷ s) (y ∷ t) (z ∷ u) h i = ground (arith, str_le_trans s t u)

-- Two insertions can be done in either order.
pub insert_sorted_comm :
    (s t : Str) (us : List Str)
    → insert_sorted s (insert_sorted t us) ≡ insert_sorted t (insert_sorted s us)
unfolding insert_sorted
insert_sorted_comm s t [] = ground (arith, str_le_total s t, str_le_total t s, str_le_antisym s t)
insert_sorted_comm s t (u ∷ us) = ground (
  arith,
  insert_sorted_comm s t us,
  str_le_total s t,
  str_le_total t s,
  str_le_antisym s t,
  str_le_total s u,
  str_le_total t u,
  str_le_trans s t u,
  str_le_trans t s u,
)
