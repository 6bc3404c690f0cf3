-- ===== src/Prelude/Int.antt =====
-- Go's int, and strconv.ParseInt.
use hypertrace_collector.Prelude.Tests.{ltb, leb, ◌==◌, if◌then◌else◌}
use hypertrace_collector.Prelude.Text.{Str, is_empty}
use hypertrace_collector.Prelude.Decimal.{digits, itoa, read_digits, read-itoa}
use Prim.Native.Nat.{ℕ, zero, suc, ◌+◌, ◌/◌, ◌%◌, ◌^◌, ◌<◌}
use mathlib.Core.Path.{◌≡◌, refl}
use mathlib.Core.Bool.{Bool, true, false, ◌&&◌}
use mathlib.Core.Option.{Option, none, some}
use mathlib.Core.List.{[], ◌∷◌}
use native.Mathlib.Omega.{arith}

pub data ℤ : Type 0 where
  pos : ℕ → ℤ
  -- `-1 - n`
  negsuc : ℕ → ℤ

-- `-n`
abbrev pub negated : ℕ → ℤ
negated zero = pos 0
negated (suc n) = negsuc n

unfoldable pub all_digits : Str → Bool
all_digits [] = true
all_digits (c ∷ s) = (leb 48 c && leb c 57) && all_digits s

-- The number with a sign in front of its digits; a syntax error and a number out of range are both
-- none.
unfoldable pub parse_signed : Bool → Str → Option ℤ
parse_signed negative s =
    if is_empty s
    then none
    else if all_digits s
    then (let n = read_digits 0 s in
        if negative
        then (if leb n (2 ^ 63) then some (negated n) else none)
        else (if ltb n (2 ^ 63) then some (pos n) else none))
    else none

-- `strconv.ParseInt(s, 10, 0)`
unfoldable pub parse_int : Str → Option ℤ
unfolding parse_signed
parse_int [] = none
parse_int (c ∷ s) =
    if c == 43
    then parse_signed false s
    else if c == 45
    then parse_signed true s
    else parse_signed false (c ∷ s)

digits-all_digits :
    (f n : ℕ) (acc : Str) → all_digits acc ≡ true → all_digits (digits f n acc) ≡ true
unfolding digits all_digits
digits-all_digits zero n acc h = h
digits-all_digits (suc f) n acc h =
    ground (arith, digits-all_digits f (n / 10) ((48 + n % 10) ∷ acc))

digits_nonempty : (f n : ℕ) (acc : Str) → is_empty acc ≡ false → is_empty (digits f n acc) ≡ false
unfolding digits
digits_nonempty zero n acc h = h
digits_nonempty (suc f) n acc h = ground (arith, digits_nonempty f (n / 10) ((48 + n % 10) ∷ acc))

pub all_digits-itoa : (n : ℕ) → all_digits (itoa n) ≡ true
unfolding itoa all_digits
all_digits-itoa n = digits-all_digits (n + 1) n [] refl

itoa_nonempty : (n : ℕ) → is_empty (itoa n) ≡ false
unfolding itoa digits
itoa_nonempty n = go (n + 1) (omega arith)
  where
    go : (f : ℕ) → n < f → is_empty (digits f n []) ≡ false
    go zero h = elim h [ ]
    go (suc f) h = ground (arith, digits_nonempty f (n / 10) ((48 + n % 10) ∷ []))

parse_int_digits :
    (s : Str)
    → is_empty s ≡ false
    → all_digits s ≡ true
    → read_digits 0 s < 2 ^ 63
    → parse_int s ≡ some (pos (read_digits 0 s))
unfolding parse_int all_digits
parse_int_digits [] e d lt = cc
parse_int_digits (c ∷ s) e d lt = ground arith

-- ParseInt reads back what Itoa writes.
pub parse_int-itoa : (n : ℕ) → n < 2 ^ 63 → parse_int (itoa n) ≡ some (pos n)
parse_int-itoa n lt =
    rw (read-itoa n) at
      (parse_int_digits (itoa n) (itoa_nonempty n) (all_digits-itoa n) (rw (read-itoa n) lt))
