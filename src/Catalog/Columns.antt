-- ===== src/Catalog/Columns.antt =====
-- catalog/mod.rs: the loop of `create_table` and of `UpdateSchema` that writes the columns of a
-- schema, chunk by chunk.
pub mod Rows
use planar.Base.{ℕ, ◌+◌, ◌*◌, List, [], ◌∷◌}
use planar.Base.Int.{as_i32}
use planar.Base.Chunks.{chunks}
use planar.Base.Except.{ok, ◌>>=◌, ◌>>◌}
use planar.Error.{Result}
use planar.DataType.Codec.{ArrowIpc, encode_data_type}
use planar.Limits.{DbKind, batch_insert_columns_chunk}
use planar.Spec.{Uuid, ColumnSpec}
use planar.Db.{Db, ColumnRow, insert_columns}

module _ (ipc : ArrowIpc) (new_v4 : ℕ → Uuid) (schema_uuid : Uuid) where
  -- The rows of one chunk: its first UUID draw, and its first ordinal position.
  pub chunk_rows : ℕ → ℕ → List ColumnSpec → Result (List ColumnRow)
  chunk_rows drawn ordinal [] = ok []
  chunk_rows drawn ordinal (column ∷ rest) = do
    encoded_type ← encode_data_type ipc column.column_type
    rows ← chunk_rows (drawn + 1) (ordinal + 1) rest
    let row : ColumnRow = record {
      column_uuid = new_v4 drawn;
      schema_uuid = schema_uuid;
      column_name = column.name;
      column_type = encoded_type;
      ordinal_position = as_i32 ordinal;
      is_nullable = column.is_nullable;
    }
    ok (row ∷ rows)

  -- `for (chunk_index, col_chunk) in columns.chunks(size).enumerate()`
  pub insert_chunks : ℕ → ℕ → ℕ → List (List ColumnSpec) → Db → Result Db
  unfolding chunk_rows
  insert_chunks size drawn chunk_index [] db = ok db
  insert_chunks size drawn chunk_index (chunk ∷ rest) db = do
    rows ← chunk_rows (drawn + chunk_index * size) (chunk_index * size + 1) chunk
    db' ← insert_columns schema_uuid rows db
    insert_chunks size drawn (chunk_index + 1) rest db'

  -- `drawn` counts the UUIDs that the call drew before.
  unfoldable pub insert_schema_columns : DbKind → ℕ → List ColumnSpec → Db → Result Db
  unfolding insert_chunks
  insert_schema_columns kind drawn columns db =
      let size = batch_insert_columns_chunk kind in
      insert_chunks size drawn 0 (chunks size columns) db
