-- ===== src/Base/Chunks.antt =====
-- `slice::chunks`: consecutive pieces of at most `n` elements.
use planar.Base.Lists.{length, take, drop, All, take-append-drop, length-take, length-drop}
use Prim.Native.Nat.{ℕ, zero, suc, ◌≤◌, ◌<◌}
use mathlib.Core.Path.{◌≡◌, refl}
use mathlib.Core.List.{List, [], ◌∷◌, ◌++◌}
use native.Mathlib.Omega.{arith}

module _ {ℓ} {A : Type ℓ} where
  -- The fuel bounds the number of chunks; a chunk holds an element at least, so the length is enough.
  unfoldable pub chunks_fuel : ℕ → ℕ → List A → List (List A)
  chunks_fuel zero n xs = []
  chunks_fuel (suc fuel) n [] = []
  chunks_fuel (suc fuel) n (x ∷ xs) = take n (x ∷ xs) ∷ chunks_fuel fuel n (drop n (x ∷ xs))

  unfoldable pub chunks : ℕ → List A → List (List A)
  unfolding chunks_fuel
  chunks n xs = chunks_fuel (length xs) n xs

  unfoldable pub concat : List (List A) → List A
  concat [] = []
  concat (xs ∷ xss) = xs ++ concat xss

  concat-chunks_fuel :
      (fuel n : ℕ) (xs : List A) → 0 < n → length xs ≤ fuel → concat (chunks_fuel fuel n xs) ≡ xs
  unfolding chunks_fuel concat
  concat-chunks_fuel zero n [] p h = refl
  concat-chunks_fuel zero n (x ∷ xs) p h = absurd (omega arith)
  concat-chunks_fuel (suc fuel) n [] p h = refl
  concat-chunks_fuel (suc fuel) n (x ∷ xs) p h =
      rw (concat-chunks_fuel fuel n (drop n (x ∷ xs)) p (omega (arith, length-drop n (x ∷ xs))))
        (take-append-drop n (x ∷ xs))

  length-chunks_fuel : (fuel n : ℕ) (xs : List A) → All (λ c. length c ≤ n) (chunks_fuel fuel n xs)
  unfolding chunks_fuel
  length-chunks_fuel zero n xs = tt
  length-chunks_fuel (suc fuel) n [] = tt
  length-chunks_fuel (suc fuel) n (x ∷ xs) =
      (omega (arith, length-take n (x ∷ xs)), length-chunks_fuel fuel n (drop n (x ∷ xs)))

  -- The chunks are the list, cut into pieces of at most `n`.
  pub chunks_lem :
      (n : ℕ) (xs : List A)
      → 0 < n
      → (concat (chunks n xs) ≡ xs) × All (λ c. length c ≤ n) (chunks n xs)
  unfolding chunks
  chunks_lem n xs p =
      (concat-chunks_fuel (length xs) n xs p (omega arith), length-chunks_fuel (length xs) n xs)
