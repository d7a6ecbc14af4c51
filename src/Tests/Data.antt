-- ===== src/Tests/Data.antt =====
-- Concrete libraries, rows and calls for the tests.
use planar.Base.{ℕ, zero, suc, ◌+◌, String, Option, some, none, List, [], ◌∷◌, true, false}
use planar.Base.Int.{pos}
use planar.Limits.{sqlite}
use planar.Json.{Json}
use planar.DataType.{DataType, int32, int64}
use planar.DataType.Codec.{ArrowIpc, Bytes, Field}
use planar.Storage.{Format, TextOps}
use planar.Spec.{TableIdent, SchemaSpec, FileSpec, Mutation, append_files, delete_files}
use planar.Db.{Db, TableRow, TransactionRow, SchemaRow, FileRow}
use planar.Catalog.{Libraries, SqlCatalog, Env}
use planar.History.{no_rows}
use text.Mathlib.Text.{◌==◌ as str_eq}

-- JSON values that are their own text.
abbrev pub text_json : Json String String
text_json = record {
  object = λ m. m;
  as_object = λ v. some v;
  as_str = λ v. some v;
  as_u64 = λ v. none;
  as_bool = λ v. none;
  to_string = λ v. some v;
  from_str = λ t. some t;
  empty = "";
  remove = λ m key. m;
  entries = λ m. [];
  map_eq = str_eq;
}

-- Two types with a code each.
abbrev type_code : DataType → Bytes
type_code int32 = 1 ∷ []
type_code int64 = 2 ∷ []
type_code _ = []

abbrev coded_type : Bytes → Option DataType
coded_type (suc zero ∷ []) = some int32
coded_type (suc (suc zero) ∷ []) = some int64
coded_type _ = none

abbrev code_fields : List Field → Bytes
code_fields [] = []
code_fields (field ∷ rest) = type_code field.data_type

abbrev coded_fields : Option DataType → Option (List Field)
coded_fields none = none
coded_fields (some data_type) =
    some (record { name = "_"; data_type = data_type; nullable = true } ∷ [])

abbrev pub code_ipc : ArrowIpc
code_ipc = record {
  schema_to_fb = code_fields;
  root_as_schema = λ bytes. coded_fields (coded_type bytes);
}

abbrev pub plain_text : TextOps
plain_text = record { to_lowercase = λ s. s; writer_version = λ s. none; write_mode = λ s. none }

abbrev pub toy_libraries : Libraries String String
toy_libraries = record { json = text_json; ipc = code_ipc; text = plain_text }

abbrev pub toy_catalog : SqlCatalog
toy_catalog = record {
  db_kind = sqlite;
  client_protocol = record { reader = pos 1; writer = pos 1 };
}

-- A call with a transaction ID and the first UUID that it draws.
abbrev pub call : ℕ → ℕ → Env
call id first = record { transaction_id = id; now = 0; new_v4 = λ n. first + n }

abbrev pub events_ident : TableIdent
events_ident = record { namespace = "db"; name = "events" }

abbrev pub one_column : SchemaSpec
one_column = record {
  columns = record { name = "a"; column_type = int32; is_nullable = false } ∷ [];
}

abbrev pub empty_db : Db
empty_db = no_rows

-- A table whose head is transaction 1.
abbrev pub table_row : TableRow
table_row = record {
  table_uuid = 100;
  table_name = "events";
  namespace = "db";
  location = "/data";
  current_schema_uuid = some 101;
  current_transaction_id = some 1;
  created_at = 0;
  properties = some "";
  min_reader_version = pos 1;
  min_writer_version = pos 1;
}

abbrev pub root_row : TransactionRow
root_row = record {
  transaction_id = 1;
  table_uuid = 100;
  transaction_timestamp = 0;
  parent_transaction_id = none;
}

abbrev pub schema_row : SchemaRow
schema_row = record {
  schema_uuid = 101;
  table_uuid = 100;
  schema_version = pos 1;
  valid_from_transaction_id = 1;
  valid_to_transaction_id = none;
  created_at = 0;
}

abbrev pub file_row : ℕ → ℕ → FileRow
file_row uuid id = record {
  file_uuid = uuid;
  table_uuid = 100;
  file_format = "parquet";
  file_path = "/data/file";
  record_count = pos 3;
  file_size_bytes = pos 64;
  added_in_transaction_id = id;
  removed_in_transaction_id = none;
  partition_values = none;
  format_options = none;
}

-- The table with one file.
abbrev pub start_db : Db
start_db = record empty_db {
  tables = table_row ∷ [];
  transactions = root_row ∷ [];
  schemas = schema_row ∷ [];
  files = file_row 7 1 ∷ [];
}

abbrev pub new_file : FileSpec String
new_file = record {
  file_uuid = some 8;
  file_format = Format.parquet;
  file_path = "/data/file";
  record_count = pos 3;
  file_size_bytes = pos 64;
  partition_values = none;
  format_options = none;
}

-- A mutation that replaces file 7 by file 8.
abbrev pub replace_file : Mutation String String
replace_file = record { operations = append_files (new_file ∷ []) ∷ delete_files (7 ∷ []) ∷ [] }

-- The state after it, as transaction 2.
abbrev pub next_db : Db
next_db = record start_db {
  tables = record table_row { current_transaction_id = some 2 } ∷ [];
  transactions =
      root_row
      ∷ record {
        transaction_id = 2;
        table_uuid = 100;
        transaction_timestamp = 0;
        parent_transaction_id = some 1;
      }
      ∷ [];
  files = record (file_row 7 1) { removed_in_transaction_id = some 2 } ∷ file_row 8 2 ∷ [];
}
