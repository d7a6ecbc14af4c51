-- ===== src/Tests/Drivers.antt =====
-- The PostgreSQL catalog with the driver as sqlx documents it, and the theorems applied to it.
use planar.Base.{◌≡◌, ◌≢◌, String, refl, some, none, false, []}
use planar.Base.Chunks.{chunks, chunks_fuel}
use planar.Base.Eq.{contains, nat_eq}
use planar.Base.Except.{ok, err}
use planar.Base.Int.{as_i32}
use planar.Error.{column_decode, storage}
use planar.Json.{serialize_json}
use planar.Limits.{postgres, batch_insert_columns_chunk, db_bind_limit}
use planar.DataType.Codec.{encode_data_type}
use planar.Spec.{is_blank, validate_schema}
use planar.Db.{
  find, find_table, insert_columns, insert_rows, insert_schema, insert_table, insert_transaction,
  set_head, update_table,
}
use planar.Catalog.{SqlCatalog}
use planar.Catalog.Columns.{insert_schema_columns}
use planar.Catalog.Create.RoundTrip.{first_view}
use planar.Catalog.Read.{TableView}
use planar.Delta.{TableDelta}
use planar.Backends.Postgres
use planar.Backends.Postgres.{Driver, exists_row}
use planar.Backends.Postgres.Decoding.{read_table-diff_table_fail, load_table-create_table}
use planar.Tests.Data.{toy_libraries, toy_catalog, call, events_ident, one_column, empty_db}
use planar.Tests.Tables.{created_db}

-- An INT4 is an `i32`, and a TIMESTAMP a `NaiveDateTime`.
abbrev strict_driver : Driver
strict_driver = record { compatible = λ sql_type rust_type. false }

abbrev postgres_toy : SqlCatalog
postgres_toy = record toy_catalog { db_kind = postgres }

create_run :
    Postgres.create_table strict_driver toy_libraries postgres_toy
      (call 1 100)
      events_ident
      "/data"
      one_column
      none
      empty_db
    ≡ ok created_db
unfolding Postgres.create_table exists_row validate_schema contains find_table find serialize_json
    insert_table insert_rows insert_transaction insert_schema insert_schema_columns
    batch_insert_columns_chunk db_bind_limit chunks chunks_fuel encode_data_type insert_columns
    update_table set_head is_blank as_i32
create_run = refl

one_column_valid : validate_schema one_column ≡ ok tt
unfolding validate_schema contains is_blank
one_column_valid = refl

load_table-create_table_example :
    (Postgres.load_table strict_driver events_ident created_db ≡ err (storage column_decode))
    × (Postgres.create_table strict_driver toy_libraries postgres_toy
          (call 2 200)
          events_ident
          "/other"
          one_column
          (some "b")
          created_db
        ≡ err (storage column_decode))
load_table-create_table_example =
    load_table-create_table strict_driver toy_libraries postgres_toy (call 1 100) (call 2 200)
      events_ident "/data" "/other" one_column one_column none (some "b") empty_db created_db refl
      create_run one_column_valid

-- What SQLite returns for the new table, and a delta without a change.
abbrev view : TableView String String
view =
    first_view toy_libraries toy_catalog (call 1 100) events_ident "/data" one_column none empty_db

abbrev no_change : TableDelta String String
no_change = record {
  from_transaction_id = 1;
  to_transaction_id = 1;
  added_files = [];
  removed_files = [];
  new_schema = none;
  new_properties = none;
}

read_table-diff_table_fail_example :
    (Postgres.read_table strict_driver toy_libraries postgres_toy events_ident none created_db
      ≢ ok view)
    × (Postgres.diff_table strict_driver toy_libraries postgres_toy events_ident 1 1 created_db
        ≢ ok no_change)
read_table-diff_table_fail_example =
    read_table-diff_table_fail strict_driver toy_libraries postgres_toy events_ident none 1 1
      created_db view no_change refl
