-- ===== src/Prometheus/Accumulator/Interleaved/Both.antt =====
-- Two rounds of calls that run at once leave what they leave one after the other.
use hypertrace_collector.Prelude.{
  ◌≡◌, refl, ◌∙◌, sym, subst, ◌⊎◌, inl, inr, Bool, true, false, Option, Str, str_eq, str_eq_iff,
  Bool-cases,
}
use hypertrace_collector.Prelude.GoMap.{lookup}
use hypertrace_collector.Prometheus.LastValues.{Accumulated, Registry}
use hypertrace_collector.Prometheus.Accumulator.{Source}
use hypertrace_collector.Prometheus.Accumulator.Interleaved.{
  Decision, Round, over, left_by, next, Interleaved, begun, moved, others, Concurrent, both_begun,
  first_moved, second_moved,
}
use hypertrace_collector.Prometheus.Accumulator.Interleaved.Serial.{
  whole, Interleaved-Serial, whole-local, whole-elsewhere, next-elsewhere,
}

module _ {M D : Type 0} (s₁ : Source M D) (sig₁ : Str) (ends₁ : Bool)
    (decide₁ : Option (Accumulated M D) → Decision M D) (s₂ : Source M D) (sig₂ : Str)
    (ends₂ : Bool) (decide₂ : Option (Accumulated M D) → Decision M D) where
  abbrev Run : Registry M D → Registry M D → Round M D → Round M D → Type 0
  Run = Concurrent (next s₁ sig₁ ends₁ decide₁) (next s₂ sig₂ ends₂ decide₂)

  for_first :
      (begin a : Registry M D) (x y : Round M D)
      → str_eq sig₂ sig₁ ≡ false
      → Run begin a x y
      → Interleaved s₁ sig₁ ends₁ decide₁ begin a x
  for_first begin _ _ _ d both_begun = begun
  for_first begin _ _ _ d (first_moved {a} {b} {x} {x'} {y} r e) =
      moved (for_first begin a x y d r) e
  for_first begin _ _ _ d (second_moved {a} {b} {x} {y} {y'} r e) =
      others (for_first begin a x y d r) (next-elsewhere s₂ sig₂ ends₂ decide₂ a b y y' sig₁ e d)

  for_second :
      (begin a : Registry M D) (x y : Round M D)
      → str_eq sig₁ sig₂ ≡ false
      → Run begin a x y
      → Interleaved s₂ sig₂ ends₂ decide₂ begin a y
  for_second begin _ _ _ d both_begun = begun
  for_second begin _ _ _ d (second_moved {a} {b} {x} {y} {y'} r e) =
      moved (for_second begin a x y d r) e
  for_second begin _ _ _ d (first_moved {a} {b} {x} {x'} {y} r e) =
      others (for_second begin a x y d r) (next-elsewhere s₁ sig₁ ends₁ decide₁ a b x x' sig₂ e d)

  elsewhere :
      (begin a : Registry M D) (x y : Round M D) (k : Str)
      → str_eq sig₁ k ≡ false
      → str_eq sig₂ k ≡ false
      → Run begin a x y
      → lookup k a ≡ lookup k begin
  elsewhere begin _ _ _ k d e both_begun = refl
  elsewhere begin _ _ _ k d e (first_moved {a} {b} {x} {x'} {y} r m) =
      next-elsewhere s₁ sig₁ ends₁ decide₁ a b x x' k m d ∙ elsewhere begin a x y k d e r
  elsewhere begin _ _ _ k d e (second_moved {a} {b} {x} {y} {y'} r m) =
      next-elsewhere s₂ sig₂ ends₂ decide₂ a b y y' k m e ∙ elsewhere begin a x y k d e r

  -- The registry after the first round alone, and after the second round on that.
  abbrev after_first : Registry M D → Registry M D
  after_first begin = left_by begin (whole s₁ sig₁ ends₁ decide₁ begin)

  abbrev pub after_both : Registry M D → Registry M D
  after_both begin = left_by (after_first begin) (whole s₂ sig₂ ends₂ decide₂ (after_first begin))

  pub Concurrent-serial :
      (begin reg : Registry M D) (k : Str)
      → str_eq sig₁ sig₂ ≡ false
      → str_eq sig₂ sig₁ ≡ false
      → Run begin reg over over
      → lookup k reg ≡ lookup k (after_both begin)
  Concurrent-serial begin reg k d e r = elim (Bool-cases (str_eq sig₂ k)) [
    | inl two ↦
        subst (λ j. lookup j reg ≡ lookup j (after_both begin)) ((str_eq_iff sig₂ k).0 two)
          (Interleaved-Serial s₂ sig₂ ends₂ decide₂ begin reg over
              (for_second begin reg over over d r)
            ∙ sym (
                whole-local s₂ sig₂ ends₂ decide₂ (after_first begin) begin
                  (whole-elsewhere s₁ sig₁ ends₁ decide₁ begin sig₂ d)))
    | inr n ↦
        go n (Bool-cases (str_eq sig₁ k))
        ∙ sym (whole-elsewhere s₂ sig₂ ends₂ decide₂ (after_first begin) k n)
  ]
    where
      go :
          str_eq sig₂ k ≡ false
          → (str_eq sig₁ k ≡ true) ⊎ (str_eq sig₁ k ≡ false)
          → lookup k reg ≡ lookup k (after_first begin)
      go n (inl one) =
          subst (λ j. lookup j reg ≡ lookup j (after_first begin)) ((str_eq_iff sig₁ k).0 one)
            (Interleaved-Serial s₁ sig₁ ends₁ decide₁ begin reg over
              (for_first begin reg over over e r))
      go n (inr m) =
          elsewhere begin reg over over k m n r
          ∙ sym (whole-elsewhere s₁ sig₁ ends₁ decide₁ begin k m)
