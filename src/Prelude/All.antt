-- ===== src/Prelude/All.antt =====
-- A predicate on every element of a list, by recursion.
use mathlib.Core.List.{List, [], ◌∷◌, ◌++◌, map}

abbrev pub All {ℓ κ} : {A : Type ℓ} → (A → Type κ) → List A → Type κ
All P [] = Unit
All P (x ∷ xs) = P x × All P xs

module _ {ℓ κ} {A : Type ℓ} (P : A → Type κ) where
  pub All-append : (xs ys : List A) → All P xs → All P ys → All P (xs ++ ys)
  All-append [] ys _ h = h
  All-append (x ∷ xs) ys (p, r) h = (p, All-append xs ys r h)

  pub All-append_left : (xs ys : List A) → All P (xs ++ ys) → All P xs
  All-append_left [] ys h = tt
  All-append_left (x ∷ xs) ys (p, r) = (p, All-append_left xs ys r)

  pub All-append_right : (xs ys : List A) → All P (xs ++ ys) → All P ys
  All-append_right [] ys h = h
  All-append_right (x ∷ xs) ys (p, r) = All-append_right xs ys r

module _ {ℓ κ μ} {A : Type ℓ} {B : Type κ} (P : B → Type μ) where
  pub All-map : (f : A → B) (xs : List A) → ((a : A) → P (f a)) → All P (map f xs)
  All-map f [] h = tt
  All-map f (x ∷ xs) h = (h x, All-map f xs h)

module _ {ℓ κ μ} {A : Type ℓ} (P : A → Type κ) (Q : A → Type μ) where
  pub All-implies : ((a : A) → P a → Q a) → (xs : List A) → All P xs → All Q xs
  All-implies f [] h = tt
  All-implies f (x ∷ xs) (p, r) = (f x p, All-implies f xs r)
