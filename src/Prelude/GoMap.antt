-- ===== src/Prelude/GoMap.antt =====
-- Go maps with string keys, as association lists: `m[k]`, `m[k] = v`, `delete(m, k)`.
use mathlib.Core.Path.{◌≡◌, refl, subst}
use mathlib.Core.Logic.{inl, inr}
use mathlib.Core.Option.{Option, none, some}
use mathlib.Core.List.{List, [], ◌∷◌}
use native.Mathlib.Omega.{arith}
use hypertrace_collector.Prelude.Tests.{if◌then◌else◌, Bool-cases}
use hypertrace_collector.Prelude.All.{All}
use hypertrace_collector.Prelude.Text.{Str, str_eq, str_eq_iff}

abbrev pub GoMap {ℓ} : Type ℓ → Type ℓ
GoMap V = List (Str × V)

module _ {ℓ} {V : Type ℓ} where
  -- `v, ok := m[k]`
  unfoldable pub lookup : Str → GoMap V → Option V
  lookup k [] = none
  lookup k ((j, v) ∷ m) = if str_eq j k then some v else lookup k m

  -- `m[k] = v`
  unfoldable pub insert : Str → V → GoMap V → GoMap V
  insert k v [] = (k, v) ∷ []
  insert k v ((j, w) ∷ m) = if str_eq j k then (k, v) ∷ m else (j, w) ∷ insert k v m

  -- `delete(m, k)`
  unfoldable pub erase : Str → GoMap V → GoMap V
  erase k [] = []
  erase k ((j, w) ∷ m) = let rest = erase k m in if str_eq j k then rest else (j, w) ∷ rest

  pub lookup-nil : (k : Str) → lookup k [] ≡ none
  unfolding lookup
  lookup-nil k = refl

  pub lookup-insert :
      (k j : Str) (v : V) (m : GoMap V)
      → lookup j (insert k v m) ≡ (if str_eq k j then some v else lookup j m)
  unfolding lookup insert
  lookup-insert k j v [] = refl
  lookup-insert k j v ((i, w) ∷ m) =
      ground (arith, lookup-insert k j v m, str_eq_iff i k, str_eq_iff i j, str_eq_iff k j)

  pub lookup-erase :
      (k j : Str) (m : GoMap V) → lookup j (erase k m) ≡ (if str_eq k j then none else lookup j m)
  unfolding lookup erase
  lookup-erase k j [] = ground arith
  lookup-erase k j ((i, w) ∷ m) =
      ground (arith, lookup-erase k j m, str_eq_iff i k, str_eq_iff i j, str_eq_iff k j)

pub ruleset map_laws = (lookup-nil, lookup-insert, lookup-erase)

module _ {V : Type 0} (P : Str → V → Type 0) where
  -- What holds of every entry of a map.
  abbrev pub Entries : GoMap V → Type 0
  Entries m = All (λ e. P e.0 e.1) m

  pub Entries-lookup : (k : Str) (v : V) (m : GoMap V) → Entries m → lookup k m ≡ some v → P k v
  unfolding lookup
  Entries-lookup k v [] h e = cc
  Entries-lookup k v ((j, w) ∷ m) (h, hs) e = elim (Bool-cases (str_eq j k)) [
    | inl q ↦
        let same : j ≡ k = (str_eq_iff j k).0 q in
        let value : w ≡ v = cc (rw q at e) in subst (λ x. P k x) value (subst (λ x. P x w) same h)
    | inr q ↦ Entries-lookup k v m hs (rw q at e)
  ]

  pub Entries-insert : (k : Str) (v : V) (m : GoMap V) → P k v → Entries m → Entries (insert k v m)
  unfolding insert
  Entries-insert k v [] p h = (p, tt)
  Entries-insert k v ((j, w) ∷ m) p (h, hs) = elim (Bool-cases (str_eq j k)) [
    | inl q ↦ rw q (p, hs)
    | inr q ↦ rw q (h, Entries-insert k v m p hs)
  ]

  pub Entries-erase : (k : Str) (m : GoMap V) → Entries m → Entries (erase k m)
  unfolding erase
  Entries-erase k [] h = tt
  Entries-erase k ((j, w) ∷ m) (h, hs) = elim (Bool-cases (str_eq j k)) [
    | inl q ↦ rw q (Entries-erase k m hs)
    | inr q ↦ rw q (h, Entries-erase k m hs)
  ]
