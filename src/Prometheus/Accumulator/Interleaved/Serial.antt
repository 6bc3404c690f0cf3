-- ===== src/Prometheus/Accumulator/Interleaved/Serial.antt =====
-- The rounds of calls that run at once.
use hypertrace_collector.Prelude.{
  ◌≡◌, refl, ◌∙◌, sym, ap, subst, inl, inr, Bool, false, Option, none, some, Str, str_eq,
  str_eq_refl, if◌then◌else◌, Bool-cases,
}
use hypertrace_collector.Prelude.GoMap.{lookup, lookup-insert, lookup-erase, insert, erase}
use hypertrace_collector.Prometheus.LastValues.{
  Accumulated, Registry, Step, panic, stop, skip, stored,
}
use hypertrace_collector.Prometheus.Accumulator.{Source, accumulated}
use hypertrace_collector.Prometheus.Accumulator.Interleaved.{
  Decision, crash, keep, put, Round, loading, storing, over, left_by, written, next, Interleaved,
  begun, moved, others,
}

module _ {M D : Type 0} (s : Source M D) (sig : Str) where
  -- What a decision does, as a step.
  abbrev pub by_decision : Registry M D → Decision M D → Step (Registry M D)
  by_decision reg crash = panic
  by_decision reg keep = skip
  by_decision reg (put ps) = stored (insert sig (accumulated s ps) reg)

module _ {M D : Type 0} (s : Source M D) (sig : Str) (ends : Bool)
    (decide : Option (Accumulated M D) → Decision M D) where
  -- The round as one step.
  abbrev pub whole : Registry M D → Step (Registry M D)
  whole reg = if ends then stop (erase sig reg) else by_decision s sig reg (decide (lookup sig reg))

  -- What holds of the value of the signature where the round is.
  abbrev pub Serial : Registry M D → Registry M D → Round M D → Type 0
  Serial begin reg loading = lookup sig reg ≡ lookup sig begin
  Serial begin reg (storing found) =
      (found ≡ lookup sig begin) × (ends ≡ false) × (lookup sig reg ≡ lookup sig begin)
  Serial begin reg over = lookup sig reg ≡ lookup sig (left_by begin (whole begin))

  lookup-inserted :
      (v : Accumulated M D) (reg : Registry M D) → lookup sig (insert sig v reg) ≡ some v
  lookup-inserted v reg = rw (lookup-insert sig sig v reg, str_eq_refl sig) refl

  lookup-erased : (reg : Registry M D) → lookup sig (erase sig reg) ≡ none
  lookup-erased reg = rw (lookup-erase sig sig reg, str_eq_refl sig) refl

  -- What holds after an access that does not panic.
  abbrev After : Registry M D → Option (Registry M D × Round M D) → Type 0
  After begin none = Unit
  After begin (some (b, y)) = Serial begin b y

  written-Serial :
      (begin a : Registry M D) (d : Decision M D)
      → ends ≡ false
      → decide (lookup sig begin) ≡ d
      → lookup sig a ≡ lookup sig begin
      → After begin (written s sig ends decide a d)
  written-Serial begin a crash n e h = tt
  written-Serial begin a keep n e h = rw (n, e) h
  written-Serial begin a (put ps) n e h =
      let v = accumulated s ps in rw (n, e) (lookup-inserted v a ∙ sym (lookup-inserted v begin))

  next-Serial :
      (begin a : Registry M D) (x : Round M D)
      → Serial begin a x
      → After begin (next s sig ends decide a x)
  unfolding next
  next-Serial begin a loading h = elim (Bool-cases ends) [
    | inl t ↦ rw t (lookup-erased a ∙ sym (lookup-erased begin))
    | inr f ↦ rw f (h, refl, h)
  ]
  next-Serial begin a (storing found) (f, n, h) =
      written-Serial begin a (decide found) n (ap decide (sym f)) h
  next-Serial begin a over h = tt

  -- Changes by others.
  others-Serial :
      (begin a b : Registry M D) (x : Round M D)
      → Serial begin a x
      → lookup sig b ≡ lookup sig a
      → Serial begin b x
  others-Serial begin a b loading h e = e ∙ h
  others-Serial begin a b (storing found) (f, n, h) e = (f, n, e ∙ h)
  others-Serial begin a b over h e = e ∙ h

  pub Interleaved-Serial :
      (begin a : Registry M D) (x : Round M D)
      → Interleaved s sig ends decide begin a x
      → Serial begin a x
  Interleaved-Serial begin _ _ begun = refl
  Interleaved-Serial begin _ _ (moved {a} {b} {x} {y} r e) =
      subst (After begin) e (next-Serial begin a x (Interleaved-Serial begin a x r))
  Interleaved-Serial begin _ _ (others {a} {b} {x} r e) =
      others-Serial begin a b x (Interleaved-Serial begin a x r) e

  by_decision-local :
      (a b : Registry M D) (d : Decision M D)
      → lookup sig a ≡ lookup sig b
      → lookup sig (left_by a (by_decision s sig a d))
        ≡ lookup sig (left_by b (by_decision s sig b d))
  by_decision-local a b crash h = h
  by_decision-local a b keep h = h
  by_decision-local a b (put ps) h =
      let v = accumulated s ps in lookup-inserted v a ∙ sym (lookup-inserted v b)

  -- What a round leaves under its signature depends on nothing else of the registry.
  pub whole-local :
      (a b : Registry M D)
      → lookup sig a ≡ lookup sig b
      → lookup sig (left_by a (whole a)) ≡ lookup sig (left_by b (whole b))
  whole-local a b h = elim (Bool-cases ends) [
    | inl t ↦ rw t (lookup-erased a ∙ sym (lookup-erased b))
    | inr f ↦ rw (f, h) (by_decision-local a b (decide (lookup sig b)) h)
  ]

  by_decision-elsewhere :
      (a : Registry M D) (d : Decision M D) (k : Str)
      → str_eq sig k ≡ false
      → lookup k (left_by a (by_decision s sig a d)) ≡ lookup k a
  by_decision-elsewhere a crash k h = refl
  by_decision-elsewhere a keep k h = refl
  by_decision-elsewhere a (put ps) k h = rw (lookup-insert sig k (accumulated s ps) a, h) refl

  pub whole-elsewhere :
      (a : Registry M D) (k : Str)
      → str_eq sig k ≡ false
      → lookup k (left_by a (whole a)) ≡ lookup k a
  whole-elsewhere a k h = elim (Bool-cases ends) [
    | inl t ↦ rw t (rw (lookup-erase sig k a, h) refl)
    | inr f ↦ rw f (by_decision-elsewhere a (decide (lookup sig a)) k h)
  ]

  -- The value of `k` is what it was in `a`.
  abbrev Untouched : Str → Registry M D → Option (Registry M D × Round M D) → Type 0
  Untouched k a none = Unit
  Untouched k a (some (b, y)) = lookup k b ≡ lookup k a

  next-Untouched :
      (a : Registry M D) (x : Round M D) (k : Str)
      → str_eq sig k ≡ false
      → Untouched k a (next s sig ends decide a x)
  unfolding next
  next-Untouched a loading k h = elim (Bool-cases ends) [
    | inl t ↦ rw t (rw (lookup-erase sig k a, h) refl)
    | inr f ↦ rw f refl
  ]
  next-Untouched a (storing found) k h = go (decide found)
    where
      go : (d : Decision M D) → Untouched k a (written s sig ends decide a d)
      go crash = tt
      go keep = refl
      go (put ps) = rw (lookup-insert sig k (accumulated s ps) a, h) refl
  next-Untouched a over k h = tt

  -- An access changes no value but that of the signature.
  pub next-elsewhere :
      (a b : Registry M D) (x y : Round M D) (k : Str)
      → next s sig ends decide a x ≡ some (b, y)
      → str_eq sig k ≡ false
      → lookup k b ≡ lookup k a
  next-elsewhere a b x y k e h = subst (Untouched k a) e (next-Untouched a x k h)
