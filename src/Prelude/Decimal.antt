-- ===== src/Prelude/Decimal.antt =====
-- `strconv.Itoa` of a number that is not negative.
use Prim.Native.Nat.{ℕ, zero, suc, ◌+◌, ◌-◌, ◌*◌, ◌/◌, ◌%◌, ◌<◌}
use mathlib.Core.Path.{◌≡◌, refl, ap, ◌∙◌}
use mathlib.Core.List.{[], ◌∷◌}
use mathlib.Core.Logic.{inl, inr}
use native.Mathlib.Omega.{arith}
use hypertrace_collector.Prelude.Tests.{ltb, if◌then◌else◌, Bool-cases}
use hypertrace_collector.Prelude.Text.{Str}

-- The digits of `n` in front of `acc`; the fuel is at least the number of digits.
unfoldable pub digits : ℕ → ℕ → Str → Str
digits zero n acc = acc
digits (suc f) n acc =
    let rest = digits f (n / 10) ((48 + n % 10) ∷ acc) in if ltb n 10 then (48 + n) ∷ acc else rest

unfoldable pub itoa : ℕ → Str
unfolding digits
itoa n = digits (n + 1) n []

-- The number that a text of digits stands for, read behind `acc`.
unfoldable pub read_digits : ℕ → Str → ℕ
read_digits acc [] = acc
read_digits acc (c ∷ s) = read_digits (acc * 10 + (c - 48)) s

read-digits : (f n : ℕ) (acc : Str) → n < f → read_digits 0 (digits f n acc) ≡ read_digits n acc
unfolding digits read_digits
read-digits zero n acc h = elim h [ ]
read-digits (suc f) n acc h = elim (Bool-cases (ltb n 10)) [
  | inl small ↦
      rw small
        (let e : 0 * 10 + (48 + n - 48) ≡ n = omega arith in ap (λ (k : ℕ). read_digits k acc) e)
  | inr large ↦ rw large (
      let e : n / 10 * 10 + (48 + n % 10 - 48) ≡ n = omega arith in
      read-digits f (n / 10) ((48 + n % 10) ∷ acc) (ground arith)
      ∙ ap (λ (k : ℕ). read_digits k acc) e)
]

-- Reading back what Itoa writes gives the number.
pub read-itoa : (n : ℕ) → read_digits 0 (itoa n) ≡ n
unfolding itoa
read-itoa n = read-digits (n + 1) n [] (omega arith) ∙ (unfold read_digits in refl)
