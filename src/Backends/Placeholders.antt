-- ===== src/Backends/Placeholders.antt =====
-- catalog/mod.rs: the parameters of the statements that are built at run time, which the two
-- backends number in different ways: the rows of `INSERT INTO columns` and `INSERT INTO files`, and
-- the `IN (…)` of the update that deletes files.
use planar.Base.{ℕ, zero, suc, ◌+◌, Option, none, some, List, [], ◌∷◌, map, ltb, if◌then◌else◌}
use planar.Limits.{
  DbKind, sqlite, postgres, column_insert_params_per_row, file_insert_params_per_row,
}

-- `?`, and `?n` (SQLite) or `$n` (PostgreSQL).
pub data Placeholder : Type 0 where
  anonymous : Placeholder
  numbered : ℕ → Placeholder

-- `count` numbers from `first` on.
unfoldable pub upto : ℕ → ℕ → List ℕ
upto first zero = []
upto first (suc count) = first ∷ upto (suc first) count

unfoldable pub question_marks : ℕ → List Placeholder
question_marks zero = []
question_marks (suc width) = anonymous ∷ question_marks width

-- SQLite: `(0..row_data.len()).map(|_| "(?, …, ?)")`
unfoldable pub anonymous_rows : ℕ → ℕ → List (List Placeholder)
unfolding question_marks
anonymous_rows width zero = []
anonymous_rows width (suc rows) = question_marks width ∷ anonymous_rows width rows

-- PostgreSQL: `("(${}, …, ${})", param, …)`, and `param += width`.
unfoldable pub numbered_rows : ℕ → ℕ → ℕ → List (List Placeholder)
unfolding upto
numbered_rows width param zero = []
numbered_rows width param (suc rows) =
    map numbered (upto param width) ∷ numbered_rows width (param + width) rows

unfoldable pub row_placeholders : DbKind → ℕ → ℕ → List (List Placeholder)
unfolding anonymous_rows numbered_rows
row_placeholders sqlite width rows = anonymous_rows width rows
row_placeholders postgres width rows = numbered_rows width 1 rows

-- The rows of `INSERT INTO columns` and of `INSERT INTO files`.
unfoldable pub column_placeholders : DbKind → ℕ → List (List Placeholder)
unfolding row_placeholders
column_placeholders kind rows = row_placeholders kind column_insert_params_per_row rows

unfoldable pub file_placeholders : DbKind → ℕ → List (List Placeholder)
unfolding row_placeholders
file_placeholders kind rows = row_placeholders kind file_insert_params_per_row rows

-- SQLite counts the UUIDs from 0 and adds 3, PostgreSQL counts from 1 and adds 2.
unfoldable pub in_placeholders : DbKind → ℕ → List Placeholder
unfolding upto
in_placeholders sqlite count = map (λ i. numbered (i + 3)) (upto 0 count)
in_placeholders postgres count = map (λ i. numbered (i + 2)) (upto 1 count)

-- The parameters of the whole update, in the order in which they stand.
unfoldable pub delete_placeholders : DbKind → ℕ → List Placeholder
unfolding in_placeholders
delete_placeholders kind count = numbered 1 ∷ numbered 2 ∷ in_placeholders kind count

-- The parameter that a placeholder stands for: a `?` is one more than the largest before it.
unfoldable pub assign : ℕ → List Placeholder → List ℕ
assign largest [] = []
assign largest (anonymous ∷ rest) = suc largest ∷ assign (suc largest) rest
assign largest (numbered n ∷ rest) =
    let further = assign n rest in
    let same = assign largest rest in n ∷ (if ltb largest n then further else same)

unfoldable pub largest_of : ℕ → List ℕ → ℕ
largest_of largest [] = largest
largest_of largest (n ∷ rest) = largest_of (if ltb largest n then n else largest) rest

unfoldable pub assign_rows : ℕ → List (List Placeholder) → List (List ℕ)
unfolding assign largest_of
assign_rows largest [] = []
assign_rows largest (row ∷ rows) =
    assign largest row ∷ assign_rows (largest_of largest (assign largest row)) rows

-- The value bound to parameter `n`; parameters count from 1.
unfoldable pub bound {ℓ} : {A : Type ℓ} → List A → ℕ → Option A
bound [] n = none
bound (a ∷ values) zero = none
bound (a ∷ values) (suc zero) = some a
bound (a ∷ values) (suc (suc n)) = bound values (suc n)
