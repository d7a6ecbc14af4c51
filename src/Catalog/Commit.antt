-- ===== src/Catalog/Commit.antt =====
-- catalog/mod.rs: `commit`.
pub mod Effect
pub mod Ops
pub mod Snapshot
pub mod Refinement
pub mod Conflict
pub mod Protocol
use planar.Base.{String, Option, none, some, List, [], ◌∷◌, ltb, leb, ◌==◌, length}
use planar.Base.Int.{as_u32}
use planar.Base.Eq.{string_eq}
use planar.Base.Except.{ok, guard, ok_or, ◌>>=◌, ◌>>◌}
use planar.Error.{Result, not_found, conflict, limit_exceeded, invalid_argument}
use planar.Json.{parse_table_properties, serialize_json}
use planar.Limits.{max_operations_per_mutation, max_property_keys_to_remove}
use planar.Spec.{
  Uuid, TxnId, TableIdent, Mutation, MutationOp, append_files, delete_files, update_schema,
  set_properties, remove_properties, validate_mutation,
}
use planar.Db.{
  Db, TableRow, TransactionRow, find_table, insert_transaction, set_head, set_properties_text,
  update_table,
}
use planar.Catalog.{Libraries, SqlCatalog, Env, Work, ensure_writer_protocol_compatible}
use planar.Catalog.Append.{apply_append}
use planar.Catalog.Delete.{apply_delete}
use planar.Catalog.Evolve.{apply_update_schema}

module _ {Value Map : Type 0} (lib : Libraries Value Map) (catalog : SqlCatalog) (env : Env) where
  remove_keys : List String → Map → Map
  remove_keys [] properties = properties
  remove_keys (key ∷ rest) properties = remove_keys rest (lib.json.remove properties key)

  -- `MutationOp::RemoveProperties`
  unfoldable pub apply_remove_properties : List String → Work Map → Result (Work Map)
  unfolding remove_keys
  apply_remove_properties [] work = ok work
  apply_remove_properties (key ∷ rest) work = do
    guard (leb (as_u32 (length (key ∷ rest))) max_property_keys_to_remove)
        (limit_exceeded "cannot remove {} property keys, exceeds limit of {}")
    ok (record work { properties_value = remove_keys (key ∷ rest) work.properties_value })

  -- The `match` on one operation.
  unfoldable pub apply_op : Uuid → Option Uuid → MutationOp Value Map → Work Map → Result (Work Map)
  apply_op table_uuid current (append_files files) work = apply_append lib env table_uuid files work
  apply_op table_uuid current (delete_files uuids) work = apply_delete env table_uuid uuids work
  apply_op table_uuid current (update_schema spec) work =
      apply_update_schema lib catalog env table_uuid current spec work
  apply_op table_uuid current (set_properties properties) work =
      ok (record work { properties_value = properties })
  apply_op table_uuid current (remove_properties keys) work = apply_remove_properties keys work

  unfoldable pub apply_ops :
      Uuid → Option Uuid → List (MutationOp Value Map) → Work Map → Result (Work Map)
  apply_ops table_uuid current [] work = ok work
  apply_ops table_uuid current (op ∷ rest) work = do
    work' ← apply_op table_uuid current op work
    apply_ops table_uuid current rest work'

  abbrev pub option_or : Option Uuid → Option Uuid → Option Uuid
  option_or none b = b
  option_or (some a) b = some a

  abbrev pub commit_transaction : Uuid → TxnId → TransactionRow
  commit_transaction table_uuid parent = record {
    transaction_id = env.transaction_id;
    table_uuid = table_uuid;
    transaction_timestamp = env.now;
    parent_transaction_id = some parent;
  }

  -- The end of the database transaction, after the operations.
  abbrev pub finish : TableRow → Work Map → Result Db
  finish row work = do
    let schema_uuid_to_set = option_or work.new_schema_uuid row.current_schema_uuid
    properties_text ← serialize_json lib.json (lib.json.object work.properties_value)
    ok (
        update_table
          (λ t.
            set_properties_text properties_text row.table_uuid
              (set_head env.transaction_id schema_uuid_to_set row.table_uuid t))
          work.db)

  -- The body of the database transaction, from the row of the table.
  unfoldable pub commit_row : TableRow → TxnId → TxnId → Mutation Value Map → Map → Db → Result Db
  commit_row row current base mutation properties db = do
    guard (current == base) (conflict "base transaction {} does not match current {}")
    db' ← insert_transaction (commit_transaction row.table_uuid current) db
    let start : Work Map = record {
      db = db';
      properties_value = properties;
      new_schema_uuid = row.current_schema_uuid;
      drawn = 0;
    }
    work ← apply_ops row.table_uuid row.current_schema_uuid mutation.operations start
    finish row work

  -- `commit`: the new database and the ID of the transaction.
  unfoldable pub commit : TableIdent → TxnId → Mutation Value Map → Db → Result (Db × TxnId)
  unfolding commit_row
  commit ident base mutation db = do
    guard (ltb 0 (length mutation.operations)) (invalid_argument "mutation has no operations")
    guard (leb (as_u32 (length mutation.operations)) max_operations_per_mutation)
        (limit_exceeded "mutation has {} operations, exceeds limit of {}")
    validate_mutation mutation
    row ← ok_or (find_table ident db) (not_found "{}.{}")
    properties ← parse_table_properties lib.json row.properties
    ensure_writer_protocol_compatible catalog ident row.min_writer_version
    current ← ok_or row.current_transaction_id (invalid_argument "table has no current transaction")
    db' ← commit_row row current base mutation properties db
    ok (db', env.transaction_id)
