-- ===== src/Catalog/Rows.antt =====
-- catalog/schema.rs and catalog/mod.rs: database rows read into the catalog's records, and the
-- queries for files, schemas and columns.
use planar.Base.{
  ◌+◌, String, Bool, true, not, ◌&&◌, Option, none, some, List, [], ◌∷◌, ltb, leb, length, take,
  filter, ◌==◌, if◌then◌else◌,
}
use planar.Base.Int.{ℤ, ltb_ℤ}
use planar.Base.Except.{ok, guard, ◌>>=◌, ◌>>◌}
use planar.Error.{Result, limit_exceeded}
use planar.DataType.{DataType}
use planar.DataType.Codec.{ArrowIpc, decode_data_type}
use planar.Json.{Json, parse_json_optional}
use planar.Limits.{max_files_per_query, max_columns_per_schema}
use planar.Spec.{Uuid, TxnId}
use planar.Db.{Db, SchemaRow, ColumnRow, FileRow, find}

-- `schema::Column`, `schema::Schema` and `schema::File`
pub record Column : Type 0 where
  pub column_uuid : Uuid
  pub schema_uuid : Uuid
  pub column_name : String
  pub column_type : DataType
  pub ordinal_position : ℤ
  pub is_nullable : Bool

pub record Schema : Type 0 where
  pub row : SchemaRow
  pub open row use *
  pub columns : List Column

pub record File (Value : Type 0) : Type 0 where
  pub file_uuid : Uuid
  pub table_uuid : Uuid
  pub file_format : String
  pub file_path : String
  pub record_count : ℤ
  pub file_size_bytes : ℤ
  pub added_in_transaction_id : TxnId
  pub removed_in_transaction_id : Option TxnId
  pub partition_values : Option Value
  pub format_options : Option Value

-- ORDER BY ordinal_position
unfoldable pub insert_column : ColumnRow → List ColumnRow → List ColumnRow
insert_column c [] = c ∷ []
insert_column c (d ∷ rest) =
    let later = d ∷ insert_column c rest in
    if ltb_ℤ d.ordinal_position c.ordinal_position then later else c ∷ d ∷ rest

unfoldable pub order_columns : List ColumnRow → List ColumnRow
unfolding insert_column
order_columns [] = []
order_columns (c ∷ rest) = insert_column c (order_columns rest)

unfoldable pub read_column : ArrowIpc → ColumnRow → Result Column
read_column ipc row = do
  column_type ← decode_data_type ipc row.column_type
  ok (record {
    column_uuid = row.column_uuid;
    schema_uuid = row.schema_uuid;
    column_name = row.column_name;
    column_type = column_type;
    ordinal_position = row.ordinal_position;
    is_nullable = row.is_nullable;
  })

unfoldable pub read_columns : ArrowIpc → List ColumnRow → Result (List Column)
unfolding read_column
read_columns ipc [] = ok []
read_columns ipc (row ∷ rest) = do
  column ← read_column ipc row
  columns ← read_columns ipc rest
  ok (column ∷ columns)

-- SELECT … FROM columns WHERE schema_uuid = ? ORDER BY ordinal_position LIMIT max + 1, and the loop
-- over the rows. The message is the caller's.
unfoldable pub load_columns : ArrowIpc → String → Uuid → Db → Result (List Column)
unfolding order_columns read_columns
load_columns ipc message schema_uuid db = do
  let of_schema = order_columns (filter (λ c. c.schema_uuid == schema_uuid) db.columns)
  let column_rows = take (max_columns_per_schema + 1) of_schema
  guard (not (ltb max_columns_per_schema (length column_rows))) (limit_exceeded message)
  read_columns ipc column_rows

abbrev pub after : TxnId → Option TxnId → Bool
after at none = true
after at (some end) = ltb at end

-- valid_from_transaction_id <= ? AND (valid_to_transaction_id IS NULL OR valid_to_transaction_id > ?)
unfoldable pub schema_visible : Uuid → TxnId → SchemaRow → Bool
schema_visible table_uuid at s =
    s.table_uuid == table_uuid
    && leb s.valid_from_transaction_id at
    && after at s.valid_to_transaction_id

unfoldable pub schema_at : Uuid → TxnId → Db → Option SchemaRow
unfolding find schema_visible
schema_at table_uuid at db = find (schema_visible table_uuid at) db.schemas

-- added_in_transaction_id <= ? AND (removed_in_transaction_id IS NULL OR removed_in_… > ?)
unfoldable pub file_visible : Uuid → TxnId → FileRow → Bool
file_visible table_uuid at f =
    f.table_uuid == table_uuid
    && leb f.added_in_transaction_id at
    && after at f.removed_in_transaction_id

unfoldable pub files_at : Uuid → TxnId → Db → List FileRow
files_at table_uuid at db = filter (file_visible table_uuid at) db.files

module _ {Value Map : Type 0} (json : Json Value Map) where
  unfoldable pub read_file : FileRow → Result (File Value)
  read_file row = do
    partition_values ← parse_json_optional json row.partition_values
    format_options ← parse_json_optional json row.format_options
    ok (record {
      file_uuid = row.file_uuid;
      table_uuid = row.table_uuid;
      file_format = row.file_format;
      file_path = row.file_path;
      record_count = row.record_count;
      file_size_bytes = row.file_size_bytes;
      added_in_transaction_id = row.added_in_transaction_id;
      removed_in_transaction_id = row.removed_in_transaction_id;
      partition_values = partition_values;
      format_options = format_options;
    })

  unfoldable pub read_files : List FileRow → Result (List (File Value))
  unfolding read_file
  read_files [] = ok []
  read_files (row ∷ rest) = do file ← read_file row; files ← read_files rest; ok (file ∷ files)

  -- SELECT … FROM files WHERE … LIMIT max + 1, and the loop over the rows.
  unfoldable pub load_files : Uuid → TxnId → Db → Result (List (File Value))
  unfolding read_files
  load_files table_uuid at db = do
    let file_rows = take (max_files_per_query + 1) (files_at table_uuid at db)
    guard (not (ltb max_files_per_query (length file_rows)))
        (limit_exceeded "file count exceeds limit of {}")
    read_files file_rows
