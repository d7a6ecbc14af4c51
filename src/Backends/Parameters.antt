-- ===== src/Backends/Parameters.antt =====
-- Every value that is bound reaches the place that it is meant for, on both backends.
use planar.Base.{
  ℕ, zero, suc, ◌+◌, ◌≡◌, refl, ap, ◌∙◌, some, List, [], ◌∷◌, ◌++◌, map, arith, All, length,
  length-append, Option, append_assoc, append-nil,
}
use planar.Base.Chunks.{concat}
use planar.Limits.{
  DbKind, sqlite, postgres, column_insert_params_per_row, file_insert_params_per_row,
}
use planar.Backends.Placeholders.{
  Placeholder, numbered, upto, question_marks, anonymous_rows, numbered_rows, row_placeholders,
  column_placeholders, file_placeholders, in_placeholders, delete_placeholders, assign, largest_of,
  assign_rows, bound,
}

-- Numbered placeholders stand for their numbers.
assign-numbered : (largest : ℕ) (ns : List ℕ) → assign largest (map numbered ns) ≡ ns
unfolding assign
assign-numbered largest [] = refl
assign-numbered largest (n ∷ ns) = ground (arith, assign-numbered n ns, assign-numbered largest ns)

-- A row of question marks counts on from the largest parameter.
assign-question_marks :
    (largest width : ℕ) → assign largest (question_marks width) ≡ upto (suc largest) width
unfolding assign question_marks upto
assign-question_marks largest zero = refl
assign-question_marks largest (suc width) =
    ap (◌∷◌ (suc largest)) (assign-question_marks (suc largest) width)

largest_of-upto :
    (largest width : ℕ) → largest_of largest (upto (suc largest) width) ≡ largest + width
unfolding largest_of upto
largest_of-upto largest zero = omega arith
largest_of-upto largest (suc width) = ground (arith, largest_of-upto (suc largest) width)

-- The list after `IN` counts on from the two parameters before it.
map_shift :
    (first k count : ℕ)
    → map (λ i. numbered (i + k)) (upto first count) ≡ map numbered (upto (first + k) count)
unfolding upto
map_shift first k zero = refl
map_shift first k (suc count) =
    let next : suc first + k ≡ suc (first + k) = omega arith in
    cc (next, map_shift (suc first) k count)

assign-in_placeholders :
    (kind : DbKind) (largest count : ℕ) → assign largest (in_placeholders kind count) ≡ upto 3 count
unfolding in_placeholders
assign-in_placeholders sqlite largest count =
    ap (assign largest) (map_shift 0 3 count) ∙ assign-numbered largest (upto 3 count)
assign-in_placeholders postgres largest count =
    ap (assign largest) (map_shift 1 2 count) ∙ assign-numbered largest (upto 3 count)

-- The rows of parameters from `first` on.
parameter_rows : ℕ → ℕ → ℕ → List (List ℕ)
parameter_rows width first zero = []
parameter_rows width first (suc rows) = upto first width ∷ parameter_rows width (first + width) rows

assign_rows-anonymous :
    (width largest rows : ℕ)
    → assign_rows largest (anonymous_rows width rows) ≡ parameter_rows width (suc largest) rows
unfolding assign_rows anonymous_rows parameter_rows
assign_rows-anonymous width largest zero = refl
assign_rows-anonymous width largest (suc rows) =
    let next : suc largest + width ≡ suc (largest + width) = omega arith in
    cc (
      next,
      assign-question_marks largest width,
      largest_of-upto largest width,
      assign_rows-anonymous width (largest + width) rows,
    )

assign_rows-numbered :
    (width largest first rows : ℕ)
    → assign_rows largest (numbered_rows width first rows) ≡ parameter_rows width first rows
unfolding assign_rows numbered_rows parameter_rows
assign_rows-numbered width largest first zero = refl
assign_rows-numbered width largest first (suc rows) =
    let now = map numbered (upto first width) in
    cc (
      assign-numbered largest (upto first width),
      assign_rows-numbered width (largest_of largest (assign largest now)) (first + width) rows,
    )

assign_rows-row_placeholders :
    (kind : DbKind) (width rows : ℕ)
    → assign_rows 0 (row_placeholders kind width rows) ≡ parameter_rows width 1 rows
unfolding row_placeholders
assign_rows-row_placeholders sqlite width rows = assign_rows-anonymous width 0 rows
assign_rows-row_placeholders postgres width rows = assign_rows-numbered width 0 1 rows

module _ {ℓ} {A : Type ℓ} where
  bound-append :
      (before : List A) (a : A) (after : List A)
      → bound (before ++ a ∷ after) (suc (length before)) ≡ some a
  unfolding bound
  bound-append [] a after = refl
  bound-append (b ∷ before) a after = bound-append before a after

  -- The parameters after some values are the next values.
  bound-upto :
      (before row after : List A) (first : ℕ)
      → first ≡ suc (length before)
      → map (bound (before ++ (row ++ after))) (upto first (length row)) ≡ map some row
  unfolding upto
  bound-upto before [] after first is = refl
  bound-upto before (a ∷ row) after first is =
      let here : bound (before ++ a ∷ (row ++ after)) first ≡ some a =
        rw is (bound-append before a (row ++ after)) in
      let rest =
        bound-upto (before ++ a ∷ []) row after (suc first)
          (omega (arith, is, length-append before (a ∷ []))) in
      let whole : (before ++ a ∷ []) ++ (row ++ after) ≡ before ++ a ∷ (row ++ after) =
        append_assoc before (a ∷ []) (row ++ after) in
      cc (here, rw whole at rest)

  bound-parameter_rows :
      (width : ℕ) (before : List A) (rows : List (List A)) (first : ℕ)
      → All (λ row. length row ≡ width) rows
      → first ≡ suc (length before)
      → map (map (bound (before ++ concat rows))) (parameter_rows width first (length rows))
        ≡ map (map some) rows
  unfolding parameter_rows concat
  bound-parameter_rows width before [] first full is = refl
  bound-parameter_rows width before (row ∷ rows) first full is =
      let now = bound-upto before row (concat rows) first is in
      let rest =
        bound-parameter_rows width (before ++ row) rows (first + width) full.1
          (omega (arith, is, full.0, length-append before row)) in
      let whole : (before ++ row) ++ concat rows ≡ before ++ (row ++ concat rows) =
        append_assoc before row (concat rows) in
      cc (rw full.0 at now, rw whole at rest)

  -- The rows that the database reads from the parameters of an insertion.
  abbrev pub inserted : List (List Placeholder) → List A → List (List (Option A))
  inserted placeholders values = map (map (bound values)) (assign_rows 0 placeholders)

  -- An insertion inserts the rows that are bound: for every number of rows, on either backend, the
  -- placeholders of `INSERT INTO columns` (with six values to a row) and of `INSERT INTO files`
  -- (with nine) give each row its own values in order, although one backend writes `?` and the
  -- other counts `$1`, `$2`, … through the rows.
  pub placeholders-rows :
      (kind : DbKind) (columns files : List (List A))
      → All (λ row. length row ≡ column_insert_params_per_row) columns
      → All (λ row. length row ≡ file_insert_params_per_row) files
      → (inserted (column_placeholders kind (length columns)) (concat columns)
          ≡ map (map some) columns)
        × (inserted (file_placeholders kind (length files)) (concat files) ≡ map (map some) files)
  unfolding column_placeholders file_placeholders
  placeholders-rows kind columns files six nine = (
    ap (map (map (bound (concat columns))))
          (assign_rows-row_placeholders kind column_insert_params_per_row (length columns))
        ∙ bound-parameter_rows column_insert_params_per_row [] columns 1 six refl,
    ap (map (map (bound (concat files))))
          (assign_rows-row_placeholders kind file_insert_params_per_row (length files))
        ∙ bound-parameter_rows file_insert_params_per_row [] files 1 nine refl,
  )

  -- A delete removes the files that are bound: with the transaction, the table and the UUIDs bound
  -- in this order, the placeholders of the update give the first place the transaction, the second
  -- the table, and the list after `IN` exactly the UUIDs in order, on either backend.
  pub placeholders-deleted :
      (kind : DbKind) (transaction_id table_uuid : A) (file_uuids : List A)
      → map
          (bound (transaction_id ∷ table_uuid ∷ file_uuids))
          (assign 0 (delete_placeholders kind (length file_uuids)))
        ≡ map some (transaction_id ∷ table_uuid ∷ file_uuids)
  unfolding delete_placeholders assign bound
  placeholders-deleted kind t u uuids =
      let values = t ∷ u ∷ uuids in
      let rest = bound-upto (t ∷ u ∷ []) uuids [] 3 refl in
      let later =
        ap (map (bound values)) (assign-in_placeholders kind 2 (length uuids))
        ∙ (rw (append-nil uuids) at rest) in
      ap (λ (r : List (Option A)). some t ∷ some u ∷ r) later
