-- ===== src/Catalog/Read.antt =====
-- catalog/mod.rs: `read_table`, `load_table`, `list_tables`, `drop_table` and
-- `current_transaction_id`.
use planar.Base.{
  ◌+◌, String, Bool, true, not, ◌&&◌, Option, none, some, List, map, ltb, length, take, filter,
  ◌==◌, if◌then◌else◌,
}
use planar.Base.Except.{ok, guard, ok_or, ◌>>=◌, ◌>>◌}
use planar.Error.{Result, not_found, invalid_argument, limit_exceeded}
use planar.Json.{parse_table_properties}
use planar.Limits.{max_tables_per_list}
use planar.Spec.{Uuid, TxnId, TableIdent}
use planar.Db.{Db, TableRow, TableStats, find, find_table, delete_table, is_none}
use planar.Catalog.{Libraries, SqlCatalog, ensure_reader_protocol_compatible}
use planar.Catalog.Chain.{is_ancestor}
use planar.Catalog.Rows.{Schema, File, load_columns, load_files, schema_at}
use text.Mathlib.Text.{◌==◌ as str_eq}

pub record TableView (Value Map : Type 0) : Type 0 where
  pub ident : TableIdent
  pub table_uuid : Uuid
  pub transaction_id : TxnId
  pub schema : Schema
  pub files : List (File Value)
  pub properties : Map
  pub stats : Option TableStats

-- `load_table`: a handle is the identifier.
unfoldable pub load_table : TableIdent → Db → Option TableIdent
load_table ident db = if is_none (find_table ident db) then none else some ident

abbrev in_namespace : Option String → TableRow → Bool
in_namespace none t = true
in_namespace (some name) t = str_eq t.namespace name

unfoldable pub list_tables : Option String → Db → Result (List TableIdent)
list_tables namespace db = do
  let rows = take (max_tables_per_list + 1) (filter (in_namespace namespace) db.tables)
  guard (not (ltb max_tables_per_list (length rows)))
      (limit_exceeded "table count exceeds limit of {}")
  ok (map (λ t. record { namespace = t.namespace; name = t.table_name }) rows)

unfoldable pub drop_table : TableIdent → Db → Result Db
drop_table ident db = do
  (db', deleted) ← delete_table ident db
  guard (ltb 0 (length deleted)) (not_found "{}.{}")
  ok db'

unfoldable pub current_transaction_id : TableIdent → Db → Result TxnId
current_transaction_id ident db = do
  row ← ok_or (find_table ident db) (not_found "{}.{}")
  ok_or row.current_transaction_id (invalid_argument "table has no current transaction")

-- The requested transaction must be the current one or an ancestor of it.
unfoldable pub check_history : Db → Uuid → TxnId → TxnId → Result (Unit {0})
check_history db table_uuid effective current = if effective == current then ok tt else do
  found ← is_ancestor db table_uuid effective current
  guard found (invalid_argument "requested transaction is not in table history")

abbrev pub unwrap_or : Option TxnId → TxnId → TxnId
unwrap_or none default = default
unwrap_or (some id) default = id

module _ {Value Map : Type 0} (lib : Libraries Value Map) (catalog : SqlCatalog) where
  unfoldable pub read_table : TableIdent → Option TxnId → Db → Result (TableView Value Map)
  read_table ident at_transaction_id db = do
    row ← ok_or (find_table ident db) (not_found "{}.{}")
    properties ← parse_table_properties lib.json row.properties
    ensure_reader_protocol_compatible catalog ident row.min_reader_version
    current ← ok_or row.current_transaction_id (invalid_argument "table has no current transaction")
    let effective = unwrap_or at_transaction_id current
    check_history db row.table_uuid effective current
    schema ←
        ok_or (schema_at row.table_uuid effective db)
          (not_found "no schema for {}.{} at transaction {}")
    columns ← load_columns lib.ipc "column count exceeds limit of {}" schema.schema_uuid db
    files ← load_files lib.json row.table_uuid effective db
    let stats =
        find (λ s. s.table_uuid == row.table_uuid && s.transaction_id == effective) db.table_stats
    ok (record {
      ident = ident;
      table_uuid = row.table_uuid;
      transaction_id = effective;
      schema = record { row = schema; columns = columns };
      files = files;
      properties = properties;
      stats = stats;
    })
