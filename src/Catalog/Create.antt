-- ===== src/Catalog/Create.antt =====
-- catalog/mod.rs: `create_table`.
pub mod Effect
pub mod Drop
pub mod Reading
pub mod RoundTrip
use planar.Base.{Option, none, some}
use planar.Base.Int.{ℤ, pos}
use planar.Base.Except.{ok, guard, ◌>>=◌, ◌>>◌}
use planar.Error.{Result, conflict}
use planar.Json.{serialize_json}
use planar.Spec.{TableIdent, SchemaSpec, validate_schema}
use planar.Db.{
  Db, TableRow, TransactionRow, SchemaRow, find_table, is_none, insert_table, insert_transaction,
  insert_schema, set_head, update_table,
}
use planar.Catalog.{Libraries, SqlCatalog, Env}
use planar.Catalog.Columns.{insert_schema_columns}
use Prim.Native.String.{String}

abbrev pub initial_schema_version : ℤ
initial_schema_version = pos 1

module _ {Value Map : Type 0} (lib : Libraries Value Map) (catalog : SqlCatalog) (env : Env) where
  abbrev pub unwrap_or_default : Option Map → Map
  unwrap_or_default none = lib.json.empty
  unwrap_or_default (some properties) = properties

  -- The rows that describe the new table, before its head is set.
  abbrev pub new_table : TableIdent → String → String → TableRow
  new_table ident location properties_text = record {
    table_uuid = env.new_v4 0;
    table_name = ident.name;
    namespace = ident.namespace;
    location = location;
    current_schema_uuid = none;
    current_transaction_id = none;
    created_at = env.now;
    properties = some properties_text;
    min_reader_version = catalog.client_protocol.reader;
    min_writer_version = catalog.client_protocol.writer;
  }

  abbrev pub first_transaction : TransactionRow
  first_transaction = record {
    transaction_id = env.transaction_id;
    table_uuid = env.new_v4 0;
    transaction_timestamp = env.now;
    parent_transaction_id = none;
  }

  abbrev pub first_schema : SchemaRow
  first_schema = record {
    schema_uuid = env.new_v4 1;
    table_uuid = env.new_v4 0;
    schema_version = initial_schema_version;
    valid_from_transaction_id = env.transaction_id;
    valid_to_transaction_id = none;
    created_at = env.now;
  }

  -- The UUIDs drawn are the table's, the schema's, and one for each column.
  unfoldable pub create_table : TableIdent → String → SchemaSpec → Option Map → Db → Result Db
  create_table ident location schema properties db = do
    validate_schema schema
    guard (is_none (find_table ident db)) (conflict "table already exists: {}.{}")
    properties_text ← serialize_json lib.json (lib.json.object (unwrap_or_default properties))
    db ← insert_table (new_table ident location properties_text) db
    db ← insert_transaction first_transaction db
    db ← insert_schema first_schema db
    db ← insert_schema_columns lib.ipc env.new_v4 (env.new_v4 1) catalog.db_kind 2 schema.columns db
    ok (update_table (set_head env.transaction_id (some (env.new_v4 1)) (env.new_v4 0)) db)
