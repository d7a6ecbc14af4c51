-- ===== src/Catalog/Create/Reading.antt =====
-- `read_table` on a table that was just created.
use planar.Base.{
  ℕ, suc, String, ◌+◌, ◌≡◌, ◌≢◌, ◌<◌, ◌≤◌, ◌^◌, refl, ap, ◌∙◌, List, [], ◌∷◌, ◌++◌, arith, true,
  false, filter, filter-append, filter-none, filter-All, ◌==◌, ==_of_ne, ltb, length, take,
  take_of_length-le, All, All-mono,
}
use planar.Base.Int.{pos, as_i32_lem}
use planar.Base.Eq.{nat_eq}
use planar.Base.Except.{ok}
use planar.Limits.{max_columns_per_schema}
use planar.DataType.Codec.{ArrowIpc, decode_data_type, IpcRoundTrips}
use planar.Spec.{Uuid, ColumnSpec}
use planar.Db.{Db, ColumnRow}
use planar.Catalog.Columns.Rows.{column_rows}
use planar.Catalog.Rows.{
  Column, insert_column, order_columns, read_column, read_columns, load_columns,
}

module _ (ipc : ArrowIpc) (new_v4 : ℕ → Uuid) (schema_uuid : Uuid) where
  -- The columns that a reader should see: those of the schema, with ordinal positions from the given
  -- one on.
  abbrev pub numbered : ℕ → ℕ → List ColumnSpec → List Column
  numbered drawn ordinal [] = []
  numbered drawn ordinal (column ∷ rest) =
      record {
        column_uuid = new_v4 drawn;
        schema_uuid = schema_uuid;
        column_name = column.name;
        column_type = column.column_type;
        ordinal_position = pos ordinal;
        is_nullable = column.is_nullable;
      }
      ∷ numbered (drawn + 1) (ordinal + 1) rest

  insert_column-column_rows :
      (c : ColumnRow) (drawn ordinal : ℕ) (xs : List ColumnSpec)
      → c.ordinal_position ≡ pos ordinal
      → ordinal + 1 < 2 ^ 31
      → insert_column c (column_rows ipc new_v4 schema_uuid drawn (ordinal + 1) xs)
        ≡ c ∷ column_rows ipc new_v4 schema_uuid drawn (ordinal + 1) xs
  unfolding insert_column column_rows
  insert_column-column_rows c drawn ordinal [] at small = refl
  insert_column-column_rows c drawn ordinal (x ∷ xs) at small =
      let later = as_i32_lem (ordinal + 1) small in ground (arith, at, later)

  order_columns-column_rows :
      (drawn ordinal : ℕ) (xs : List ColumnSpec)
      → ordinal + length xs < 2 ^ 31
      → order_columns (column_rows ipc new_v4 schema_uuid drawn ordinal xs)
        ≡ column_rows ipc new_v4 schema_uuid drawn ordinal xs
  unfolding order_columns column_rows
  order_columns-column_rows drawn ordinal [] small = refl
  order_columns-column_rows drawn ordinal (x ∷ xs) small =
      rw (order_columns-column_rows (drawn + 1) (ordinal + 1) xs (omega arith)) (
        insert_column-column_rows _ (drawn + 1) ordinal xs (as_i32_lem ordinal (omega arith))
          (omega arith))

  length-column_rows :
      (drawn ordinal : ℕ) (xs : List ColumnSpec)
      → length (column_rows ipc new_v4 schema_uuid drawn ordinal xs) ≡ length xs
  unfolding column_rows
  length-column_rows drawn ordinal [] = refl
  length-column_rows drawn ordinal (x ∷ xs) =
      ap suc (length-column_rows (drawn + 1) (ordinal + 1) xs)

  column_rows-schema_uuid :
      (drawn ordinal : ℕ) (xs : List ColumnSpec)
      → All
          (λ c. (c.schema_uuid == schema_uuid) ≡ true)
          (column_rows ipc new_v4 schema_uuid drawn ordinal xs)
  unfolding column_rows
  column_rows-schema_uuid drawn ordinal [] = tt
  column_rows-schema_uuid drawn ordinal (x ∷ xs) =
      (ground arith, column_rows-schema_uuid (drawn + 1) (ordinal + 1) xs)

  read_columns-column_rows :
      (drawn ordinal : ℕ) (xs : List ColumnSpec)
      → All (λ c. IpcRoundTrips ipc c.column_type) xs
      → ordinal + length xs < 2 ^ 31
      → read_columns ipc (column_rows ipc new_v4 schema_uuid drawn ordinal xs)
        ≡ ok (numbered drawn ordinal xs)
  unfolding read_columns read_column column_rows decode_data_type
  read_columns-column_rows drawn ordinal [] trips small = refl
  read_columns-column_rows drawn ordinal (x ∷ xs) trips small = rw (
    trips.0,
    read_columns-column_rows (drawn + 1) (ordinal + 1) xs trips.1 (omega arith),
    as_i32_lem ordinal (omega arith),
  )

  -- The columns of a new schema, behind columns of other schemas, are read as the specification
  -- lists them.
  pub load_columns-column_rows :
      (message : String) (drawn : ℕ) (xs : List ColumnSpec) (db : Db) (old : List ColumnRow)
      → db.columns ≡ old ++ column_rows ipc new_v4 schema_uuid drawn 1 xs
      → All (λ c. c.schema_uuid ≢ schema_uuid) old
      → length xs ≤ max_columns_per_schema
      → All (λ c. IpcRoundTrips ipc c.column_type) xs
      → load_columns ipc message schema_uuid db ≡ ok (numbered drawn 1 xs)
  unfolding load_columns
  load_columns-column_rows message drawn xs db old is_append fresh few trips =
      let rows = column_rows ipc new_v4 schema_uuid drawn 1 xs in
      let own = λ (c : ColumnRow). c.schema_uuid == schema_uuid in
      let selected : filter own db.columns ≡ rows =
        ap (filter own) is_append
        ∙ filter-append own old rows
        ∙ ap (λ (l : List ColumnRow). l ++ filter own rows)
            (filter-none own old (All-mono (λ c. ==_of_ne c.schema_uuid schema_uuid) old fresh))
        ∙ filter-All own rows (column_rows-schema_uuid drawn 1 xs) in
      let count : length rows ≡ length xs = length-column_rows drawn 1 xs in
      let ordered : order_columns (filter own db.columns) ≡ rows =
        ap order_columns selected ∙ order_columns-column_rows drawn 1 xs (omega arith) in
      let all : take (max_columns_per_schema + 1) rows ≡ rows =
        take_of_length-le (max_columns_per_schema + 1) rows (omega arith) in
      let within : ltb max_columns_per_schema (length rows) ≡ false = ground arith in
      rw (ordered, all, within) (read_columns-column_rows drawn 1 xs trips (omega arith))
