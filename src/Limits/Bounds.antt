-- ===== src/Limits/Bounds.antt =====
-- The batch sizes against the bind limits, for every number of rows in a chunk.
use planar.Base.{ℕ, ◌<◌, ◌≤◌, List, length, arith, All, All-mono}
use planar.Base.Chunks.{chunks, chunks_lem}
use planar.Limits.{
  DbKind, sqlite, postgres, db_bind_limit, column_insert_bind_count, file_insert_bind_count,
  delete_files_bind_count, batch_insert_columns_chunk, batch_insert_files_chunk,
  batch_delete_files_chunk,
}

-- A chunk of columns is never empty, so the loop over the chunks moves on.
pub batch_insert_columns_chunk_pos : (db : DbKind) → 0 < batch_insert_columns_chunk db
unfolding batch_insert_columns_chunk
batch_insert_columns_chunk_pos sqlite = ground arith
batch_insert_columns_chunk_pos postgres = ground arith

column_insert-within :
    (db : DbKind) (rows : ℕ)
    → rows ≤ batch_insert_columns_chunk db
    → column_insert_bind_count rows ≤ db_bind_limit db
unfolding db_bind_limit column_insert_bind_count batch_insert_columns_chunk
column_insert-within sqlite rows h = ground arith
column_insert-within postgres rows h = ground arith

file_insert-within :
    (db : DbKind) (rows : ℕ)
    → rows ≤ batch_insert_files_chunk
    → file_insert_bind_count rows ≤ db_bind_limit db
unfolding db_bind_limit file_insert_bind_count
file_insert-within sqlite rows h = ground arith
file_insert-within postgres rows h = ground arith

delete_files-within :
    (db : DbKind) (rows : ℕ)
    → rows ≤ batch_delete_files_chunk
    → delete_files_bind_count rows ≤ db_bind_limit db
unfolding db_bind_limit delete_files_bind_count
delete_files-within sqlite rows h = ground arith
delete_files-within postgres rows h = ground arith

-- No statement binds too many parameters: however long the lists of columns, files and UUIDs are,
-- every chunk that the loops cut them into stays within the bind limit of either database.
pub bind_counts-within :
    {A B C : Type 0} (db : DbKind) (columns : List A) (files : List B) (uuids : List C)
    → All
        (λ c. column_insert_bind_count (length c) ≤ db_bind_limit db)
        (chunks (batch_insert_columns_chunk db) columns)
      × All
          (λ c. file_insert_bind_count (length c) ≤ db_bind_limit db)
          (chunks batch_insert_files_chunk files)
      × All
          (λ c. delete_files_bind_count (length c) ≤ db_bind_limit db)
          (chunks batch_delete_files_chunk uuids)
bind_counts-within db columns files uuids =
    let size = batch_insert_columns_chunk db in
    (
      All-mono (λ c. column_insert-within db (length c)) (chunks size columns)
          (chunks_lem size columns (batch_insert_columns_chunk_pos db)).1,
      All-mono (λ c. file_insert-within db (length c)) (chunks batch_insert_files_chunk files)
          (chunks_lem batch_insert_files_chunk files (omega arith)).1,
      All-mono (λ c. delete_files-within db (length c)) (chunks batch_delete_files_chunk uuids)
          (chunks_lem batch_delete_files_chunk uuids (omega arith)).1,
    )
