-- ===== src/Base/Eq.antt =====
-- Equality tests as instances, and the loop that finds a repeated element by a `HashSet`.
use Prim.Native.String.{String}
use Prim.Native.Nat.{ℕ}
use text.Mathlib.Text.{◌==◌ as str_eq}
use text.Mathlib.TextEquality.{eq_iff}
use mathlib.Core.Path.{◌≡◌, refl}
use mathlib.Core.Logic.{◌↔◌, ◌≢◌}
use mathlib.Core.Bool.{Bool, true, false, ◌||◌}
use mathlib.Core.List.{List, [], ◌∷◌}
use native.Mathlib.Omega.{arith}
use planar.Base.Tests.{◌==◌ as nat_beq, ==_iff}
use planar.Base.Lists.{All}

-- A test, and that it decides equality.
pub record Eq {ℓ} (A : Type ℓ) : Type ℓ where
  pub equals : A → A → Bool
  pub equals_iff : (x y : A) → (equals x y ≡ true) ↔ (x ≡ y)

instance abbrev pub string_eq : Eq String
string_eq = record { equals = str_eq; equals_iff = eq_iff }

infix 50 ◌==◌
abbrev pub ◌==◌ {ℓ} : {T : Type ℓ} ⦃eq : Eq T⦄ → T → T → Bool
◌==◌ ⦃eq⦄ x y = eq.equals x y

instance abbrev pub nat_eq : Eq ℕ
nat_eq = record { equals = nat_beq; equals_iff = ==_iff }

module _ {ℓ} {A : Type ℓ} ⦃e : Eq A⦄ where
  unfoldable pub contains : List A → A → Bool
  contains [] a = false
  contains (x ∷ xs) a = x == a || contains xs a

  -- No element equals `a`.
  abbrev pub Fresh : A → List A → Type ℓ
  Fresh a xs = All (λ x. x ≢ a) xs

  -- No element stands twice.
  abbrev pub Distinct : List A → Type ℓ
  Distinct [] = Unit
  Distinct (x ∷ xs) = Fresh x xs × Distinct xs

  pub contains→Fresh : (xs : List A) (a : A) → contains xs a ≡ false → Fresh a xs
  unfolding contains
  contains→Fresh [] a h = tt
  contains→Fresh (x ∷ xs) a h =
      (λ p. ground (arith, e.equals_iff x a), contains→Fresh xs a (ground arith))

  pub Fresh→contains : (xs : List A) (a : A) → Fresh a xs → contains xs a ≡ false
  unfolding contains
  Fresh→contains [] a h = refl
  Fresh→contains (x ∷ xs) a h = ground (arith, e.equals_iff x a, h.0, Fresh→contains xs a h.1)

  -- A test against `y ∷ seen` is a test against `seen` and one against `y`.
  pub contains-cons :
      (y : A) (seen : List A) (x : A)
      → (contains (y ∷ seen) x ≡ false) ↔ ((x ≢ y) × (contains seen x ≡ false))
  unfolding contains
  contains-cons y seen x = (
    λ h. (λ p. ground (arith, e.equals_iff y x), ground arith),
    λ h. ground (arith, e.equals_iff y x, h.0),
  )

  -- Elements that are not among `y ∷ seen`, and the two parts of that.
  pub unseen-cons :
      (y : A) (seen xs : List A)
      → All (λ x. contains (y ∷ seen) x ≡ false) xs
      → Fresh y xs × All (λ x. contains seen x ≡ false) xs
  unseen-cons y seen [] h = (tt, tt)
  unseen-cons y seen (x ∷ xs) h =
      let now = (contains-cons y seen x).0 h.0 in
      let rest = unseen-cons y seen xs h.1 in ((now.0, rest.0), (now.1, rest.1))

  pub unseen_join :
      (y : A) (seen xs : List A)
      → Fresh y xs
      → All (λ x. contains seen x ≡ false) xs
      → All (λ x. contains (y ∷ seen) x ≡ false) xs
  unseen_join y seen [] f h = tt
  unseen_join y seen (x ∷ xs) f h =
      ((contains-cons y seen x).1 (f.0, h.0), unseen_join y seen xs f.1 h.1)

  pub unseen-nil : (xs : List A) → All (λ x. contains [] x ≡ false) xs
  unfolding contains
  unseen-nil [] = tt
  unseen-nil (x ∷ xs) = (refl, unseen-nil xs)
