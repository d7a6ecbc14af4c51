-- ===== src/Catalog/Columns/Rows.antt =====
-- The chunked loop over the columns writes what one statement for all of them would.
use planar.Base.{
  ℕ, zero, suc, ◌+◌, ◌*◌, ◌<◌, ◌≤◌, ◌≡◌, refl, ap, sym, ◌∙◌, List, [], ◌∷◌, ◌++◌, append-nil,
  append_assoc, arith, length, take, drop, take-append-drop, length-take, length-drop,
  take_of_length-le, drop_of_length-le, true,
}
use planar.Base.Int.{as_i32}
use planar.Base.Chunks.{chunks, chunks_fuel}
use planar.Base.Except.{ok, >>=-eq-ok, ok-injective}
use planar.DataType.Codec.{ArrowIpc, Bytes, encode_data_type}
use planar.DataType.{DataType}
use planar.Limits.{DbKind, batch_insert_columns_chunk}
use planar.Limits.Bounds.{batch_insert_columns_chunk_pos}
use planar.Spec.{Uuid, ColumnSpec}
use planar.Db.{Db, ColumnRow, insert_columns}
use planar.Db.Laws.{insert_columns_lem}
use native.Mathlib.Nat.{add-zero}
use native.Mathlib.Decide.{dec_le}
use planar.Catalog.Columns.{chunk_rows, insert_chunks, insert_schema_columns}

module _ (ipc : ArrowIpc) (new_v4 : ℕ → Uuid) (schema_uuid : Uuid) where
  -- The bytes of a type in the `columns` table.
  abbrev pub encoded : DataType → Bytes
  encoded d = ipc.schema_to_fb (record { name = "_"; data_type = d; nullable = true } ∷ [])

  -- The rows of all columns: UUIDs and ordinal positions count on from the given ones.
  unfoldable pub column_rows : ℕ → ℕ → List ColumnSpec → List ColumnRow
  column_rows drawn ordinal [] = []
  column_rows drawn ordinal (column ∷ rest) =
      record {
        column_uuid = new_v4 drawn;
        schema_uuid = schema_uuid;
        column_name = column.name;
        column_type = encoded column.column_type;
        ordinal_position = as_i32 ordinal;
        is_nullable = column.is_nullable;
      }
      ∷ column_rows (drawn + 1) (ordinal + 1) rest

  column_rows-append :
      (drawn ordinal : ℕ) (xs ys : List ColumnSpec)
      → column_rows drawn ordinal (xs ++ ys)
        ≡ column_rows drawn ordinal xs ++ column_rows (drawn + length xs) (ordinal + length xs) ys
  unfolding column_rows
  column_rows-append drawn ordinal [] ys = simp add-zero
  column_rows-append drawn ordinal (x ∷ xs) ys =
      let d : drawn + 1 + length xs ≡ drawn + suc (length xs) = omega arith in
      let o : ordinal + 1 + length xs ≡ ordinal + suc (length xs) = omega arith in
      cc (column_rows-append (drawn + 1) (ordinal + 1) xs ys, d, o)

  pub chunk_rows_lem :
      (drawn ordinal : ℕ) (xs : List ColumnSpec)
      → chunk_rows ipc new_v4 schema_uuid drawn ordinal xs ≡ ok (column_rows drawn ordinal xs)
  unfolding chunk_rows column_rows encode_data_type
  chunk_rows_lem drawn ordinal [] = refl
  chunk_rows_lem drawn ordinal (x ∷ xs) = rw (chunk_rows_lem (drawn + 1) (ordinal + 1) xs)

  -- The rows from the `k`-th chunk on.
  abbrev pub from_chunk : ℕ → ℕ → ℕ → List ColumnSpec → List ColumnRow
  from_chunk size drawn k = column_rows (drawn + k * size) (k * size + 1)

  pub from_chunk-step :
      (size drawn k : ℕ) (xs : List ColumnSpec)
      → from_chunk size drawn k (take size xs) ++ from_chunk size drawn (k + 1) (drop size xs)
        ≡ from_chunk size drawn k xs
  unfolding column_rows
  from_chunk-step size drawn k xs = elim (dec_le (length xs) size) [
    | yes short ↦
        rw (take_of_length-le size xs short, drop_of_length-le size xs short) (append-nil _)
    | no long ↦
        let t : length (take size xs) ≡ size = omega (arith, length-take size xs) in
        let d : drawn + (k + 1) * size ≡ drawn + k * size + size = omega arith in
        let o : (k + 1) * size + 1 ≡ k * size + 1 + size = omega arith in
        let whole = take-append-drop size xs in
        let both =
          column_rows-append (drawn + k * size) (k * size + 1) (take size xs) (drop size xs) in
        cc (t, d, o, whole, both)
  ]

  insert_chunks_lem :
      (fuel size drawn k : ℕ) (xs : List ColumnSpec) (db : Db) {db' : Db}
      → 0 < size
      → length xs ≤ fuel
      → insert_chunks ipc new_v4 schema_uuid size drawn k (chunks_fuel fuel size xs) db ≡ ok db'
      → db' ≡ record db { columns = db.columns ++ from_chunk size drawn k xs }
  unfolding insert_chunks chunks_fuel column_rows
  insert_chunks_lem zero size drawn k [] db p f h =
      sym (ok-injective h)
      ∙ ap (λ (c : List ColumnRow). record db { columns = c }) (sym (append-nil db.columns))
  insert_chunks_lem zero size drawn k (x ∷ xs) db p f h = absurd (omega arith)
  insert_chunks_lem (suc fuel) size drawn k [] db p f h =
      sym (ok-injective h)
      ∙ ap (λ (c : List ColumnRow). record db { columns = c }) (sym (append-nil db.columns))
  insert_chunks_lem (suc fuel) size drawn k (x ∷ xs) db p f h =
      let now = take size (x ∷ xs) in
      let later = drop size (x ∷ xs) in
      let h₁ = rw (chunk_rows_lem (drawn + k * size) (k * size + 1) now) at h in
      let (db₁, ran, h₂) =
        >>=-eq-ok (insert_columns schema_uuid (from_chunk size drawn k now) db) _ h₁ in
      let e = insert_columns_lem db schema_uuid (from_chunk size drawn k now) ran in
      let rest =
        insert_chunks_lem fuel size drawn (k + 1) later db₁ p
          (omega (arith, length-drop size (x ∷ xs))) h₂ in
      rest
      ∙ ap (λ (d : Db). record d { columns = d.columns ++ from_chunk size drawn (k + 1) later }) e
      ∙ ap (λ (c : List ColumnRow). record db { columns = c })
          (append_assoc db.columns (from_chunk size drawn k now)
              (from_chunk size drawn (k + 1) later)
            ∙ ap (λ (c : List ColumnRow). db.columns ++ c) (from_chunk-step size drawn k (x ∷ xs)))

  -- A successful loop adds one row for each column, in order, with the ordinal positions 1, 2, …,
  -- whatever the size of the chunks, and changes no other table.
  pub insert_schema_columns_lem :
      (kind : DbKind) (drawn : ℕ) (xs : List ColumnSpec) (db : Db) {db' : Db}
      → insert_schema_columns ipc new_v4 schema_uuid kind drawn xs db ≡ ok db'
      → db' ≡ record db { columns = db.columns ++ column_rows drawn 1 xs }
  unfolding insert_schema_columns chunks
  insert_schema_columns_lem kind drawn xs db h =
      let e =
        insert_chunks_lem (length xs) (batch_insert_columns_chunk kind) drawn 0 xs db
          (batch_insert_columns_chunk_pos kind) (omega arith) h in
      let d : drawn + 0 * batch_insert_columns_chunk kind ≡ drawn = omega arith in
      let o : 0 * batch_insert_columns_chunk kind + 1 ≡ 1 = omega arith in
      e ∙ ap (λ (c : List ColumnRow). record db { columns = db.columns ++ c }) (rw (d, o) refl)
