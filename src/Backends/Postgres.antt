-- ===== src/Backends/Postgres.antt =====
-- catalog/mod.rs: `SqlCatalog<Postgres>`, for the calls whose result depends on the types that the
-- driver decodes: `create_table`, `load_table`, `list_transaction_events`, `read_table` and
-- `diff_table`. PostgreSQL types its columns, and sqlx decodes a column as a Rust type only where
-- the two are compatible; which they are is a parameter. The types of the columns are those of
-- db/migrations/postgres, and the literal `1` is an INT4. The loops over files and columns, whose
-- columns have the types that they are decoded as, are those of the modules Rows and Events.
pub mod Decoding
use planar.Base.{
  ℕ, ◌+◌, Bool, true, false, not, ◌&&◌, Option, none, some, List, [], ◌∷◌, ◌++◌, ltb, any, ◌==◌,
  if◌then◌else◌,
}
use mathlib.Core.List.{reverse}
use planar.Base.Except.{ok, err, guard, ok_or, ◌>>=◌, ◌>>◌}
use planar.Error.{
  Result, column_decode, storage, not_found, conflict, invalid_argument, limit_exceeded,
}
use planar.Json.{parse_table_properties, serialize_json}
use planar.Limits.{max_schema_changes_per_scan}
use planar.Spec.{Uuid, TxnId, TableIdent, SchemaSpec, validate_schema}
use planar.Db.{
  Db, SchemaRow, TableStats, find, find_table, is_none, insert_table, insert_transaction,
  insert_schema, set_head, update_table,
}
use planar.Catalog.{Libraries, SqlCatalog, Env, ensure_reader_protocol_compatible}
use planar.Catalog.Chain.{txn_ids_desc}
use planar.Catalog.Columns.{insert_schema_columns}
use planar.Catalog.Create.{new_table, first_transaction, first_schema, unwrap_or_default}
use planar.Catalog.Read.{TableView, check_history, unwrap_or}
use planar.Catalog.Rows.{Schema, load_columns, load_files, schema_at}
use planar.Delta.{added, removed, TxnSchemaChange, TxnEvent, TableDelta, project_delta_range}
use planar.Events.{
  TxnRangeCursor, Counts, no_counts, added_rows, removed_rows, schema_rows, file_changes,
}
use Prim.Native.String.{String}

pub data SqlType : Type 0 where
  int4 timestamp : SqlType

pub data RustType : Type 0 where
  i64 date_time_utc : RustType

-- sqlx for PostgreSQL.
pub record Driver : Type 0 where
  pub compatible : SqlType → RustType → Bool

module _ (driver : Driver) where
  -- `row.try_get(…)?`
  unfoldable pub try_get : SqlType → RustType → Result (Unit {0})
  try_get sql_type rust_type = guard (driver.compatible sql_type rust_type) (storage column_decode)

  -- query_scalar::<Postgres, i64>("SELECT 1 …").fetch_optional(…).await?.is_some()
  unfoldable pub exists_row : Bool → Result Bool
  exists_row false = ok false
  exists_row true = do try_get int4 i64; ok true

  unfoldable pub load_table : TableIdent → Db → Result (Option TableIdent)
  load_table ident db = do
    exists ← exists_row (not (is_none (find_table ident db)))
    if not exists then ok none else ok (some ident)

  module _ {Value Map : Type 0} (lib : Libraries Value Map) (catalog : SqlCatalog) where
    unfoldable pub create_table :
        Env → TableIdent → String → SchemaSpec → Option Map → Db → Result Db
    create_table env ident location schema properties db = do
      validate_schema schema
      exists ← exists_row (not (is_none (find_table ident db)))
      guard (not exists) (conflict "table already exists: {}.{}")
      let given = unwrap_or_default lib catalog env properties
      properties_text ← serialize_json lib.json (lib.json.object given)
      db ← insert_table (new_table lib catalog env ident location properties_text) db
      db ← insert_transaction (first_transaction lib catalog env) db
      db ← insert_schema (first_schema lib catalog env) db
      db ←
          insert_schema_columns lib.ipc env.new_v4 (env.new_v4 1) catalog.db_kind 2 schema.columns
            db
      ok (update_table (set_head env.transaction_id (some (env.new_v4 1)) (env.new_v4 0)) db)

    -- The row of the statistics, if there is one.
    unfoldable pub read_stats : Option TableStats → Result (Option TableStats)
    read_stats none = ok none
    read_stats (some row) = do try_get timestamp date_time_utc; ok (some row)

    unfoldable pub read_table : TableIdent → Option TxnId → Db → Result (TableView Value Map)
    read_table ident at_transaction_id db = do
      row ← ok_or (find_table ident db) (not_found "{}.{}")
      properties ← parse_table_properties lib.json row.properties
      ensure_reader_protocol_compatible catalog ident row.min_reader_version
      current ←
          ok_or row.current_transaction_id (invalid_argument "table has no current transaction")
      let effective = unwrap_or at_transaction_id current
      check_history db row.table_uuid effective current
      schema ←
          ok_or (schema_at row.table_uuid effective db)
            (not_found "no schema for {}.{} at transaction {}")
      columns ← load_columns lib.ipc "column count exceeds limit of {}" schema.schema_uuid db
      try_get timestamp date_time_utc
      files ← load_files lib.json row.table_uuid effective db
      stats ← read_stats (
          find (λ s. s.table_uuid == row.table_uuid && s.transaction_id == effective)
            db.table_stats)
      ok (record {
        ident = ident;
        table_uuid = row.table_uuid;
        transaction_id = effective;
        schema = record { row = schema; columns = columns };
        files = files;
        properties = properties;
        stats = stats;
      })

    unfoldable pub check_exists : Db → Uuid → TxnId → TxnId → Result (Unit {0})
    check_exists db table_uuid current to = if current == to then ok tt else do
      exists ←
          exists_row
            (any (λ t. t.table_uuid == table_uuid && t.transaction_id == to) db.transactions)
      guard exists (invalid_argument "requested transaction does not exist for table")

    unfoldable pub schema_change : ℕ → List SchemaRow → Db → Result (Option TxnSchemaChange × ℕ)
    schema_change count [] db = ok (none, count)
    schema_change count (row ∷ []) db = do
      guard (not (ltb max_schema_changes_per_scan (count + 1)))
          (limit_exceeded "schema change events exceed limit of {}")
      columns ←
          load_columns lib.ipc "schema change column count exceeds limit of {}" row.schema_uuid db
      try_get timestamp date_time_utc
      let change : TxnSchemaChange = record {
        transaction_id = row.valid_from_transaction_id;
        schema = record { row = row; columns = columns };
      }
      ok (some change, count + 1)
    schema_change count (row ∷ second ∷ rest) db =
        err (invalid_argument "multiple schemas found for the same transaction")

    unfoldable pub event : Uuid → TxnId → Counts → Db → Result (TxnEvent Value × Counts)
    event table_uuid id counts db = do
      (adds, n) ←
          file_changes lib catalog added counts.added_file_events (added_rows table_uuid id db)
      (removes, m) ←
          file_changes lib catalog removed counts.removed_file_events
            (removed_rows table_uuid id db)
      (change, k) ← schema_change counts.schema_change_events (schema_rows table_uuid id db) db
      ok (
        record { transaction_id = id; file_changes = adds ++ removes; schema_change = change },
        record { added_file_events = n; removed_file_events = m; schema_change_events = k },
      )

    unfoldable pub events_of : Uuid → List TxnId → Counts → Db → Result (List (TxnEvent Value))
    events_of table_uuid [] counts db = ok []
    events_of table_uuid (id ∷ rest) counts db = do
      (e, counts') ← event table_uuid id counts db
      events ← events_of table_uuid rest counts' db
      ok (e ∷ events)

    unfoldable pub list_transaction_events :
        TableIdent → TxnRangeCursor → Db → Result (List (TxnEvent Value))
    list_transaction_events ident cursor db = do
      row ← ok_or (find_table ident db) (not_found "{}.{}")
      current ←
          ok_or row.current_transaction_id (invalid_argument "table has no current transaction")
      check_exists db row.table_uuid current cursor.to_inclusive
      ids ← txn_ids_desc db row.table_uuid cursor.from_exclusive cursor.to_inclusive
      events_of row.table_uuid (reverse ids) (no_counts lib catalog) db

    unfoldable pub diff_table : TableIdent → TxnId → TxnId → Db → Result (TableDelta Value Map)
    diff_table ident from to db = do
      events ←
          list_transaction_events ident (record { from_exclusive = some from; to_inclusive = to })
            db
      from_view ← read_table ident (some from) db
      to_view ← read_table ident (some to) db
      let new_schema =
          if from_view.schema.schema_uuid == to_view.schema.schema_uuid
          then none
          else some to_view.schema
      let new_properties =
          if lib.json.map_eq from_view.properties to_view.properties
          then none
          else some to_view.properties
      ok (project_delta_range from to events new_schema new_properties)
