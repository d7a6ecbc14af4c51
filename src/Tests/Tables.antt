-- ===== src/Tests/Tables.antt =====
-- A table that is created, read and dropped, and the theorems on tables applied to it.
use planar.Base.{String, ◌≡◌, ◌↔◌, ◌++◌, refl, some, none, true, false, [], ◌∷◌}
use planar.Base.Int.{pos, as_i32}
use planar.Base.Chunks.{chunks, chunks_fuel}
use planar.Base.Eq.{contains, nat_eq}
use planar.Base.Except.{ok, err}
use planar.Error.{storage, foreign_key_violation}
use planar.DataType.{int32, int64}
use planar.DataType.Codec.{encode_data_type}
use planar.Json.{serialize_json}
use planar.Limits.{sqlite, batch_insert_columns_chunk, db_bind_limit}
use planar.Spec.{is_blank, validate_schema, SchemaSpec}
use planar.Db.{
  Db, find, find_table, insert_rows, insert_table, insert_transaction, insert_schema,
  insert_columns, set_head, update_table, mark_removed, remove_files,
}
use planar.Catalog.{Work}
use planar.Catalog.Columns.{insert_schema_columns}
use planar.Catalog.Columns.Rows.{column_rows, insert_schema_columns_lem}
use planar.Catalog.Create.{create_table}
use planar.Catalog.Create.Drop.{drop_table-create_table}
use planar.Catalog.Create.RoundTrip.{JsonRoundTrips}
use planar.Catalog.Delete.{apply_delete}
use planar.Catalog.Delete.Effect.{Deleted, apply_delete_lem}
use planar.Catalog.Evolve.{CurrentColumn, validate_evolution}
use planar.Catalog.Evolve.Safety.{Safe, validate_evolution_iff}
use planar.Catalog.Read.{drop_table}
use planar.Tests.Data.{
  text_json, code_ipc, toy_libraries, toy_catalog, call, events_ident, one_column, empty_db,
  table_row, root_row, schema_row, file_row, start_db,
}
use mathlib.Core.Path.{sym}

-- The state after the creation of the table.
abbrev pub created_db : Db
created_db = record empty_db {
  tables = table_row ∷ [];
  transactions = root_row ∷ [];
  schemas = schema_row ∷ [];
  columns =
      record {
        column_uuid = 102;
        schema_uuid = 101;
        column_name = "a";
        column_type = 1 ∷ [];
        ordinal_position = pos 1;
        is_nullable = false;
      }
      ∷ [];
}

pub create_run :
    create_table toy_libraries toy_catalog
      (call 1 100)
      events_ident
      "/data"
      one_column
      none
      empty_db
    ≡ ok created_db
unfolding create_table validate_schema contains find_table find serialize_json insert_table
    insert_rows insert_transaction insert_schema insert_schema_columns batch_insert_columns_chunk
    db_bind_limit chunks chunks_fuel encode_data_type insert_columns update_table set_head is_blank
    as_i32
create_run = refl

pub json_round_trips : JsonRoundTrips text_json ""
json_round_trips = record { from_str-to_string = λ text h. sym h; as_object-object = refl }

drop_table-create_table_example :
    drop_table events_ident created_db ≡ err (storage foreign_key_violation)
drop_table-create_table_example =
    drop_table-create_table toy_libraries toy_catalog (call 1 100) events_ident "/data" one_column
      none empty_db created_db create_run

abbrev start : Work String
start = record { db = start_db; properties_value = ""; new_schema_uuid = none; drawn = 0 }

abbrev without_file : Work String
without_file = record start {
  db = record start_db {
    files = record (file_row 7 1) { removed_in_transaction_id = some 2 } ∷ [];
  };
}

delete_run : apply_delete (call 2 500) 100 (7 ∷ []) start ≡ ok without_file
unfolding apply_delete chunks chunks_fuel mark_removed contains remove_files
delete_run = refl

apply_delete_lem_example :
    Deleted 100 2 (7 ∷ []) start_db.files without_file.db.files
    × (without_file ≡ record start { db = record start_db { files = without_file.db.files } })
apply_delete_lem_example = apply_delete_lem (call 2 500) 100 (7 ∷ []) start without_file delete_run

columns_run :
    insert_schema_columns code_ipc (λ n. n) 101 sqlite 2 one_column.columns start_db
    ≡ ok (record start_db { columns = column_rows code_ipc (λ n. n) 101 2 1 one_column.columns })
unfolding insert_schema_columns batch_insert_columns_chunk db_bind_limit chunks chunks_fuel
    encode_data_type insert_columns insert_rows column_rows
columns_run = refl

insert_schema_columns_lem_example :
    record start_db { columns = column_rows code_ipc (λ n. n) 101 2 1 one_column.columns }
    ≡ record start_db {
      columns = start_db.columns ++ column_rows code_ipc (λ n. n) 101 2 1 one_column.columns;
    }
insert_schema_columns_lem_example =
    insert_schema_columns_lem code_ipc (λ n. n) 101 sqlite 2 one_column.columns start_db columns_run

abbrev old_column : CurrentColumn
old_column = record { name = "a"; column_type = int32; is_nullable = false }

abbrev wider : SchemaSpec
wider = record { columns = record { name = "a"; column_type = int64; is_nullable = true } ∷ [] }

validate_evolution_iff_example :
    (validate_evolution (old_column ∷ []) wider ≡ ok tt) ↔ Safe (old_column ∷ []) wider.columns
validate_evolution_iff_example = validate_evolution_iff (old_column ∷ []) wider (tt, tt)
