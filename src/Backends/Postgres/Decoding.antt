-- ===== src/Backends/Postgres/Decoding.antt =====
-- What the types that the driver decodes make of the calls: sqlx decodes an INT4 as `i32` only, and
-- `DateTime<Utc>` from TIMESTAMPTZ only.
use planar.Base.{String, ◌≡◌, ◌≢◌, true, false, Bool-cases, inl, inr, refl, some, Option, arith}
use planar.Base.Except.{ok, err, >>=-eq-ok, ok_or-eq-ok, guard-eq-ok}
use planar.Error.{column_decode, storage, not_found, invalid_argument}
use planar.Json.{parse_table_properties}
use planar.Spec.{TxnId, TableIdent, SchemaSpec, validate_schema}
use planar.Db.{Db, find_table, is_none}
use planar.Catalog.{Libraries, SqlCatalog, Env, ensure_reader_protocol_compatible}
use planar.Catalog.Create
use planar.Catalog.Create.Effect.{create_table_lem, find_table-created}
use planar.Catalog.Read.{TableView, check_history, unwrap_or}
use planar.Catalog.Rows.{load_columns, schema_at}
use planar.Delta.{TableDelta}
use planar.Backends.Postgres
use planar.Backends.Postgres.{
  Driver, timestamp, date_time_utc, int4, i64, try_get, exists_row, list_transaction_events,
}

module _ (driver : Driver) {Value Map : Type 0} (lib : Libraries Value Map)
    (catalog : SqlCatalog) where
  read_table-decodes :
      (ident : TableIdent) (at : Option TxnId) (db : Db) {view : TableView Value Map}
      → Postgres.read_table driver lib catalog ident at db ≡ ok view
      → driver.compatible timestamp date_time_utc ≡ true
  unfolding Postgres.read_table try_get
  read_table-decodes ident at db h =
      let (row, _, h₁) = ok_or-eq-ok (find_table ident db) (not_found "{}.{}") _ h in
      let (_, _, h₂) = >>=-eq-ok (parse_table_properties lib.json row.properties) _ h₁ in
      let (_, _, h₃) =
        >>=-eq-ok (ensure_reader_protocol_compatible catalog ident row.min_reader_version) _ h₂ in
      let (current, _, h₄) =
        ok_or-eq-ok row.current_transaction_id (invalid_argument "table has no current transaction")
          _ h₃ in
      let effective = unwrap_or at current in
      let (_, _, h₅) = >>=-eq-ok (check_history db row.table_uuid effective current) _ h₄ in
      let (schema, _, h₆) =
        ok_or-eq-ok (schema_at row.table_uuid effective db)
          (not_found "no schema for {}.{} at transaction {}") _ h₅ in
      let (_, _, h₇) =
        >>=-eq-ok (load_columns lib.ipc "column count exceeds limit of {}" schema.schema_uuid db) _
          h₆ in
      (guard-eq-ok (driver.compatible timestamp date_time_utc) _ _ h₇).0

  -- On PostgreSQL no table can be read: where the driver does not decode TIMESTAMP as
  -- `DateTime<Utc>`, neither `read_table` nor `diff_table` ever succeeds, for any table, any
  -- transaction and any database.
  pub read_table-diff_table_fail :
      (ident : TableIdent) (at : Option TxnId) (from to : TxnId) (db : Db)
      (view : TableView Value Map) (delta : TableDelta Value Map)
      → driver.compatible timestamp date_time_utc ≡ false
      → (Postgres.read_table driver lib catalog ident at db ≢ ok view)
        × (Postgres.diff_table driver lib catalog ident from to db ≢ ok delta)
  unfolding Postgres.diff_table
  read_table-diff_table_fail ident at from to db view delta strict = (
    λ h. cc (strict, read_table-decodes ident at db h),
    λ h.
        let (_, _, h₁) =
          >>=-eq-ok
            (list_transaction_events driver lib catalog ident
              (record { from_exclusive = some from; to_inclusive = to }) db)
            _ h in
        let (_, ran, _) =
          >>=-eq-ok (Postgres.read_table driver lib catalog ident (some from) db) _ h₁ in
        cc (strict, read_table-decodes ident (some from) db ran),
  )

  -- Whatever the driver decodes, a successful `create_table` does what the SQLite one does.
  create_table-sqlite :
      (env : Env) (ident : TableIdent) (location : String) (schema : SchemaSpec)
      (properties : Option Map) (db : Db) {db' : Db}
      → Postgres.create_table driver lib catalog env ident location schema properties db ≡ ok db'
      → Create.create_table lib catalog env ident location schema properties db ≡ ok db'
  unfolding Postgres.create_table Create.create_table exists_row try_get
  create_table-sqlite env ident location schema properties db h =
      elim (Bool-cases (is_none (find_table ident db))) [
        | inl unknown ↦ rw unknown (rw unknown at h)
        | inr known ↦
            let (_, _, h₁) = >>=-eq-ok (validate_schema schema) _ h in
            absurd (ground (arith, rw known at h₁))
      ]

  -- On PostgreSQL a table that was created cannot be loaded, and is not reported as a conflict:
  -- where the driver does not decode INT4 as `i64`, after a successful `create_table` a `load_table`
  -- of the table, and another `create_table` of it with a valid schema by any client, end in the
  -- error of the driver.
  pub load_table-create_table :
      (env env' : Env) (ident : TableIdent) (location location' : String)
      (schema schema' : SchemaSpec) (properties properties' : Option Map) (db db' : Db)
      → driver.compatible int4 i64 ≡ false
      → Postgres.create_table driver lib catalog env ident location schema properties db ≡ ok db'
      → validate_schema schema' ≡ ok tt
      → (Postgres.load_table driver ident db' ≡ err (storage column_decode))
        × (Postgres.create_table driver lib catalog env' ident location' schema' properties' db'
            ≡ err (storage column_decode))
  unfolding Postgres.create_table Postgres.load_table exists_row try_get
  load_table-create_table env env' ident location location' schema schema' properties properties' db
        db' strict ran valid =
      let c =
        create_table_lem lib catalog env ident location schema properties db
          (create_table-sqlite env ident location schema properties db ran) in
      let found = find_table-created lib catalog env ident location schema c.text db c.unknown in
      let here : is_none (find_table ident db') ≡ false = rw (c.db_is, found) refl in
      (rw (here, strict) refl, rw (valid, here, strict) refl)
