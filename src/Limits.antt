-- ===== src/Limits.antt =====
-- catalog/limits.rs: the bounds of catalog operations, and the batch sizes that keep each SQL
-- statement under the bind-parameter ceiling of its database (catalog/database.rs).
pub mod Bounds
use planar.Base.{ℕ, ◌+◌, ◌*◌, ◌/◌, ltb, if◌then◌else◌}

pub data DbKind : Type 0 where
  sqlite postgres : DbKind

abbrev pub max_files_per_query : ℕ
max_files_per_query = 10_000

abbrev pub max_columns_per_schema : ℕ
max_columns_per_schema = 1_000

abbrev pub max_tables_per_list : ℕ
max_tables_per_list = 10_000

abbrev pub max_transactions_per_scan : ℕ
max_transactions_per_scan = 50_000

abbrev pub max_schema_changes_per_scan : ℕ
max_schema_changes_per_scan = 10_000

abbrev pub max_operations_per_mutation : ℕ
max_operations_per_mutation = 1_000

abbrev pub max_files_per_append : ℕ
max_files_per_append = 1_000

abbrev pub max_files_per_delete : ℕ
max_files_per_delete = 1_000

abbrev pub max_property_keys_to_remove : ℕ
max_property_keys_to_remove = 100

abbrev pub max_json_size_bytes : ℕ
max_json_size_bytes = 1_048_576

abbrev pub batch_insert_files_chunk : ℕ
batch_insert_files_chunk = 100

abbrev pub batch_delete_files_chunk : ℕ
batch_delete_files_chunk = 500

abbrev postgres_max_bind_params : ℕ
postgres_max_bind_params = 65_535

abbrev sqlite_max_bind_params : ℕ
sqlite_max_bind_params = 32_766

abbrev pub column_insert_params_per_row : ℕ
column_insert_params_per_row = 6

abbrev pub file_insert_params_per_row : ℕ
file_insert_params_per_row = 9

abbrev delete_files_fixed_params : ℕ
delete_files_fixed_params = 2

unfoldable pub db_bind_limit : DbKind → ℕ
db_bind_limit sqlite = sqlite_max_bind_params
db_bind_limit postgres = postgres_max_bind_params

unfoldable pub column_insert_bind_count : ℕ → ℕ
column_insert_bind_count rows = rows * column_insert_params_per_row

unfoldable pub file_insert_bind_count : ℕ → ℕ
file_insert_bind_count rows = rows * file_insert_params_per_row

unfoldable pub delete_files_bind_count : ℕ → ℕ
delete_files_bind_count rows = delete_files_fixed_params + rows

unfoldable pub batch_insert_columns_chunk : DbKind → ℕ
unfolding db_bind_limit
batch_insert_columns_chunk db =
    let max_rows_from_bind_limit = db_bind_limit db / column_insert_params_per_row in
    if ltb max_rows_from_bind_limit max_columns_per_schema
    then max_rows_from_bind_limit
    else max_columns_per_schema
