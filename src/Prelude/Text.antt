-- ===== src/Prelude/Text.antt =====
-- Go strings: sequences of bytes. A literal is written `str "…"` (ASCII only).
use Prim.Native.Char.{code}
use Prim.Native.Nat.{ℕ}
use Prim.Native.String.{String}
use mathlib.Core.Path.{◌≡◌, refl}
use mathlib.Core.Logic.{◌↔◌, ◌≢◌}
use mathlib.Core.Bool.{Bool, true, false, ◌&&◌}
use mathlib.Core.List.{List, [], ◌∷◌, ◌++◌}
use native.Mathlib.Omega.{arith}
use hypertrace_collector.Prelude.Tests.{◌==◌, ==_iff}

abbrev pub Str : Type 0
Str = List ℕ

unfoldable pub str : String → Str
str String.[] = []
str (String.◌∷◌ c s) = code c ∷ str s

-- `s == t`
unfoldable pub str_eq : Str → Str → Bool
str_eq [] [] = true
str_eq (x ∷ s) (y ∷ t) = x == y && str_eq s t
str_eq _ _ = false

-- `len(s) == 0`, `s == ""`
abbrev pub is_empty : Str → Bool
is_empty [] = true
is_empty (_ ∷ _) = false

pub str_eq_iff : (s t : Str) → (str_eq s t ≡ true) ↔ (s ≡ t)
unfolding str_eq
str_eq_iff [] [] = (λ _. refl, λ _. refl)
str_eq_iff [] (y ∷ t) = (λ h. cc, λ h. cc)
str_eq_iff (x ∷ s) [] = (λ h. cc, λ h. cc)
str_eq_iff (x ∷ s) (y ∷ t) = ground (arith, ==_iff x y, str_eq_iff s t)

pub str_eq_refl : (s : Str) → str_eq s s ≡ true
str_eq_refl s = (str_eq_iff s s).1 refl

pub str_eq-ne : (s t : Str) → s ≢ t → str_eq s t ≡ false
str_eq-ne s t h = ground (arith, str_eq_iff s t)

-- `strings.Join(parts, sep)`
unfoldable pub join : Str → List Str → Str
join sep [] = []
join sep (s ∷ []) = s
join sep (s ∷ t ∷ rest) = s ++ (sep ++ join sep (t ∷ rest))
