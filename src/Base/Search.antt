-- ===== src/Base/Search.antt =====
-- Searches of lists by a Boolean test.
use mathlib.Core.Path.{◌≡◌, refl}
use mathlib.Core.Logic.{inl, inr}
use mathlib.Core.Bool.{Bool, true, false, ◌||◌}
use mathlib.Core.List.{List, [], ◌∷◌, ◌++◌, map}
use native.Mathlib.Omega.{arith}
use planar.Base.Lists.{any, filter, All}
use planar.Base.Tests.{Bool-cases}

module _ {ℓ} {A : Type ℓ} where
  pub any-append : (p : A → Bool) (xs ys : List A) → any p (xs ++ ys) ≡ (any p xs || any p ys)
  any-append p [] ys = refl
  any-append p (x ∷ xs) ys = ground (arith, any-append p xs ys)

  pub any-append-left : (p : A → Bool) (xs ys : List A) → any p xs ≡ true → any p (xs ++ ys) ≡ true
  any-append-left p xs ys h = ground (arith, any-append p xs ys)

  pub any-last : (p : A → Bool) (xs : List A) (x : A) → p x ≡ true → any p (xs ++ x ∷ []) ≡ true
  any-last p xs x h = ground (arith, any-append p xs (x ∷ []))

  -- An element that passes, with the property that all have.
  pub All-any {κ} :
      {P : A → Type κ} (p : A → Bool) (xs : List A)
      → All P xs
      → any p xs ≡ true
      → (x : A) × (p x ≡ true) × P x
  All-any p [] h found = absurd (ground arith)
  All-any p (x ∷ xs) h found = elim (Bool-cases (p x)) [
    | inl passes ↦ (x, passes, h.0)
    | inr fails ↦ All-any p xs h.1 (ground arith)
  ]

  pub any-weaker :
      (p q : A → Bool) (xs : List A)
      → ((x : A) → p x ≡ true → q x ≡ true)
      → any p xs ≡ true
      → any q xs ≡ true
  any-weaker p q [] weaker h = absurd (ground arith)
  any-weaker p q (x ∷ xs) weaker h = ground (arith, weaker x, any-weaker p q xs weaker)

  -- What fails everywhere.
  pub All-none : (p : A → Bool) (xs : List A) → any p xs ≡ false → All (λ x. p x ≡ false) xs
  All-none p [] h = tt
  All-none p (x ∷ xs) h = (ground arith, All-none p xs (ground arith))

  -- A search finds again what it found, if the elements that are dropped do not pass it.
  pub any-filter :
      (p keep : A → Bool) (xs : List A)
      → any p xs ≡ true
      → All (λ x. keep x ≡ false → p x ≡ false) xs
      → any p (filter keep xs) ≡ true
  any-filter p keep [] h only = absurd (ground arith)
  any-filter p keep (x ∷ xs) h only = ground (arith, any-filter p keep xs, only.0, only.1)

module _ {ℓ κ} {A : Type ℓ} {B : Type κ} where
  -- A change that the test does not see.
  pub any-map :
      (p : B → Bool) (f : A → B) (q : A → Bool) (xs : List A)
      → ((x : A) → p (f x) ≡ q x)
      → any p (map f xs) ≡ any q xs
  any-map p f q [] same = refl
  any-map p f q (x ∷ xs) same = ground (arith, same x, any-map p f q xs same)
