-- ===== src/Base/Pigeonhole.antt =====
-- Distinct elements of a list are at most as many as the list has elements.
use mathlib.Core.Path.{◌≡◌}
use mathlib.Core.Logic.{◌≢◌}
use mathlib.Core.Bool.{true}
use mathlib.Core.List.{List, [], ◌∷◌}
use Prim.Native.Nat.{◌≤◌, ◌+◌}
use native.Mathlib.Omega.{arith}
use planar.Base.Tests.{if◌then◌else◌}
use planar.Base.Lists.{length, All}
use planar.Base.Eq.{Eq, ◌==◌, contains, Fresh, Distinct}

module _ {ℓ} {A : Type ℓ} ⦃e : Eq A⦄ where
  -- The list without the first `a`.
  erase : A → List A → List A
  erase a [] = []
  erase a (x ∷ xs) = let rest = erase a xs in if x == a then xs else x ∷ rest

  length-erase : (a : A) (xs : List A) → contains xs a ≡ true → length (erase a xs) + 1 ≡ length xs
  unfolding erase contains
  length-erase a [] h = absurd (ground arith)
  length-erase a (x ∷ xs) h = ground (arith, length-erase a xs)

  contains-erase :
      (a b : A) (xs : List A) → b ≢ a → contains xs b ≡ true → contains (erase a xs) b ≡ true
  unfolding erase contains
  contains-erase a b [] n h = h
  contains-erase a b (x ∷ xs) n h =
      ground (arith, contains-erase a b xs n, e.equals_iff x a, e.equals_iff x b)

  All-contains-erase :
      (a : A) (pool xs : List A)
      → Fresh a xs
      → All (λ x. contains pool x ≡ true) xs
      → All (λ x. contains (erase a pool) x ≡ true) xs
  All-contains-erase a pool [] f h = tt
  All-contains-erase a pool (x ∷ xs) f h =
      (contains-erase a x pool f.0 h.0, All-contains-erase a pool xs f.1 h.1)

  pub pigeonhole :
      (xs pool : List A)
      → Distinct xs
      → All (λ x. contains pool x ≡ true) xs
      → length xs ≤ length pool
  pigeonhole [] pool d h = omega arith
  pigeonhole (x ∷ xs) pool d h = omega (
    arith,
    pigeonhole xs (erase x pool) d.1 (All-contains-erase x pool xs d.0 h.1),
    length-erase x pool h.0,
  )
