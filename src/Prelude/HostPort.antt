-- ===== src/Prelude/HostPort.antt =====
-- net.SplitHostPort.
use hypertrace_collector.Prelude.Tests.{◌==◌, leb, if◌then◌else◌}
use hypertrace_collector.Prelude.Text.{Str}
use hypertrace_collector.Prelude.Int.{all_digits}
use Prim.Native.Nat.{ℕ}
use mathlib.Core.Path.{◌≡◌, refl, ap, sym, ◌∙◌}
use mathlib.Core.Logic.{◌⊎◌, inl, inr}
use mathlib.Core.Bool.{Bool, true, false, ◌||◌}
use mathlib.Core.Option.{Option, none, some}
use mathlib.Core.List.{[], ◌∷◌, ◌++◌, append_assoc}
use native.Mathlib.Omega.{arith}

pub data AddrError : Type 0 where
  missing_port too_many_colons missing_bracket unexpected_left unexpected_right : AddrError

unfoldable pub has_byte : ℕ → Str → Bool
has_byte c [] = false
has_byte c (x ∷ s) = x == c || has_byte c s

-- What is before and behind the first or the last byte `c`.
unfoldable pub split_first : ℕ → Str → Option (Str × Str)
split_first c [] = none
split_first c (x ∷ s) =
    let rest = split_first c s in
    if x == c then some ([], s) else elim rest [ none ↦ none | some r ↦ some (x ∷ r.0, r.1) ]

unfoldable pub split_last : ℕ → Str → Option (Str × Str)
split_last c [] = none
split_last c (x ∷ s) = elim (split_last c s) [
  | some r ↦ some (x ∷ r.0, r.1)
  | none ↦ if x == c then some ([], s) else none
]

-- `unexpected '[' in address`, `unexpected ']' in address`: the tests of the whole text, or of what can
-- still hold such a byte.
abbrev checked : Str → Str → Str → Str → AddrError ⊎ (Str × Str)
checked left right host port =
    if has_byte 91 left
    then inl unexpected_left
    else if has_byte 93 right
    then inl unexpected_right
    else inr (host, port)

-- What follows `[` and the host, at the first `]`: a colon that is the last one, and the port.
abbrev bracketed : Str → Option (Str × Str) → AddrError ⊎ (Str × Str)
bracketed s none = inl missing_bracket
bracketed s (some (host, [])) = inl missing_port
bracketed s (some (host, c ∷ port)) =
    if c == 58
    then (if has_byte 58 port then inl too_many_colons else checked s (c ∷ port) host port)
    else inl missing_port

abbrev unbracketed : Str → Str → Str → AddrError ⊎ (Str × Str)
unbracketed s host port = if has_byte 58 host then inl too_many_colons else checked s s host port

abbrev split_at : Str → Str → Str → AddrError ⊎ (Str × Str)
split_at [] host port = unbracketed [] host port
split_at (c ∷ s) host port =
    if c == 91 then bracketed s (split_first 93 s) else unbracketed (c ∷ s) host port

unfoldable pub split_host_port : Str → AddrError ⊎ (Str × Str)
unfolding has_byte split_first split_last
split_host_port s = elim (split_last 58 s) [ none ↦ inl missing_port | some r ↦ split_at s r.0 r.1 ]

-- A host that needs no brackets.
abbrev pub plain : Str → Bool
plain [] = true
plain (c ∷ s) = let rest = plain s in if c == 58 || (c == 91 || c == 93) then false else rest

split_last-absent : (c : ℕ) (s : Str) → has_byte c s ≡ false → split_last c s ≡ none
unfolding split_last has_byte
split_last-absent c [] h = refl
split_last-absent c (x ∷ s) h = ground (arith, split_last-absent c s)

split_last-append :
    (c : ℕ) (host port : Str)
    → has_byte c port ≡ false
    → split_last c (host ++ c ∷ port) ≡ some (host, port)
unfolding split_last
split_last-append c [] port h = rw (split_last-absent c port h) (ground arith)
split_last-append c (x ∷ host) port h = rw (split_last-append c host port h) refl

has_byte-digits : (c : ℕ) (s : Str) → all_digits s ≡ true → leb 58 c ≡ true → has_byte c s ≡ false
unfolding has_byte all_digits
has_byte-digits c [] h i = refl
has_byte-digits c (x ∷ s) h i = ground (arith, has_byte-digits c s)

has_byte-append : (c : ℕ) (s t : Str) → has_byte c (s ++ t) ≡ (has_byte c s || has_byte c t)
unfolding has_byte
has_byte-append c [] t = refl
has_byte-append c (x ∷ s) t = ground (arith, has_byte-append c s t)

has_byte-plain :
    (s : Str)
    → plain s ≡ true
    → (has_byte 58 s ≡ false) × (has_byte 91 s ≡ false) × (has_byte 93 s ≡ false)
unfolding has_byte
has_byte-plain [] h = (refl, refl, refl)
has_byte-plain (x ∷ s) h = ground (arith, has_byte-plain s)

absent :
    (c : ℕ) (host port : Str)
    → has_byte c host ≡ false
    → has_byte c port ≡ false
    → (58 == c) ≡ false
    → has_byte c (host ++ 58 ∷ port) ≡ false
unfolding has_byte
absent c host port x y z = rw (has_byte-append c host (58 ∷ port)) (ground (arith, x, y, z))

split_at-plain :
    (host port : Str)
    → plain host ≡ true
    → has_byte 58 host ≡ false
    → has_byte 91 (host ++ 58 ∷ port) ≡ false
    → has_byte 93 (host ++ 58 ∷ port) ≡ false
    → split_at (host ++ 58 ∷ port) host port ≡ inr (host, port)
split_at-plain [] port h a b c = ground (arith, a, b, c)
split_at-plain (x ∷ host) port h a b c = ground (arith, h, a, b, c)

-- A host that needs no brackets, a colon and digits are split at the colon.
pub split_host_port-plain :
    (host port : Str)
    → plain host ≡ true
    → all_digits port ≡ true
    → split_host_port (host ++ 58 ∷ port) ≡ inr (host, port)
unfolding split_host_port
split_host_port-plain host port h d =
    let (p58, p91, p93) = has_byte-plain host h in
    let d58 = has_byte-digits 58 port d (ground arith) in
    let d91 = has_byte-digits 91 port d (ground arith) in
    let d93 = has_byte-digits 93 port d (ground arith) in
    rw (split_host_port, split_last-append 58 host port d58)
      (split_at-plain host port h p58 (absent 91 host port p91 d91 refl)
        (absent 93 host port p93 d93 refl))

split_first-append :
    (c : ℕ) (s t : Str) → has_byte c s ≡ false → split_first c (s ++ c ∷ t) ≡ some (s, t)
unfolding split_first has_byte
split_first-append c [] t h = ground arith
split_first-append c (x ∷ s) t h = ground (arith, split_first-append c s t, h)

-- A host in brackets, without brackets in it, a colon and digits are split behind the brackets.
pub split_host_port-bracketed :
    (host port : Str)
    → has_byte 91 host ≡ false
    → has_byte 93 host ≡ false
    → all_digits port ≡ true
    → split_host_port (91 ∷ (host ++ 93 ∷ 58 ∷ port)) ≡ inr (host, port)
unfolding split_host_port
split_host_port-bracketed host port l r d =
    let d58 = has_byte-digits 58 port d (ground arith) in
    let d91 = has_byte-digits 91 port d (ground arith) in
    let d93 = has_byte-digits 93 port d (ground arith) in
    let apart : 91 ∷ (host ++ 93 ∷ 58 ∷ port) ≡ (91 ∷ (host ++ 93 ∷ [])) ++ 58 ∷ port =
      ap (λ (s : Str). 91 ∷ s) (sym (append_assoc host (93 ∷ []) (58 ∷ port))) in
    let last : split_last 58 (91 ∷ (host ++ 93 ∷ 58 ∷ port)) ≡ some (91 ∷ (host ++ 93 ∷ []), port) =
      ap (split_last 58) apart ∙ split_last-append 58 (91 ∷ (host ++ 93 ∷ [])) port d58 in
    let left : has_byte 91 (host ++ 93 ∷ 58 ∷ port) ≡ false =
      has_byte-append 91 host (93 ∷ 58 ∷ port) ∙ (unfold has_byte in ground (arith, l, d91)) in
    let right : has_byte 93 (58 ∷ port) ≡ false = unfold has_byte in ground (arith, d93) in
    rw (split_host_port, last, split_first-append 93 host (58 ∷ port) r, d58, left, right) refl

plain_of :
    (s : Str)
    → has_byte 58 s ≡ false
    → has_byte 91 s ≡ false
    → has_byte 93 s ≡ false
    → plain s ≡ true
unfolding has_byte
plain_of [] a b c = refl
plain_of (x ∷ s) a b c = ground (arith, plain_of s, a, b, c)

-- The same for a host without a colon and without brackets.
pub split_host_port-unbracketed :
    (host port : Str)
    → has_byte 58 host ≡ false
    → has_byte 91 host ≡ false
    → has_byte 93 host ≡ false
    → all_digits port ≡ true
    → split_host_port (host ++ 58 ∷ port) ≡ inr (host, port)
split_host_port-unbracketed host port a b c d =
    split_host_port-plain host port (plain_of host a b c) d
