-- ===== src/Catalog/Evolve.antt =====
-- catalog/mod.rs, `commit`: the branch `MutationOp::UpdateSchema`.
pub mod Effect
pub mod Safety
use planar.Base.{
  ◌+◌, String, Bool, not, ◌&&◌, Option, none, some, List, [], ◌∷◌, map, filter, ◌==◌, length,
  if◌then◌else◌,
}
use planar.Base.Int.{succ_i32}
use planar.Base.Eq.{contains, string_eq}
use planar.Base.Except.{ok, guard, ok_or, ◌>>=◌, ◌>>◌}
use planar.Error.{Result, invalid_argument, storage, row_not_found}
use planar.DataType.{DataType, can_evolve_to}
use planar.DataType.Codec.{ArrowIpc, decode_data_type}
use planar.Spec.{Uuid, ColumnSpec, SchemaSpec, validate_schema}
use planar.Db.{ColumnRow, find, insert_schema, update_schema_end}
use planar.Catalog.{Libraries, SqlCatalog, Env, Work}
use planar.Catalog.Columns.{insert_schema_columns}
use text.Mathlib.Text.{◌==◌ as str_eq}

-- A column of the current schema: the key and the value in `current_columns`.
pub record CurrentColumn : Type 0 where
  pub name : String
  pub column_type : DataType
  pub is_nullable : Bool

-- `current_columns.get(name)`: of two columns with one name, a `HashMap` keeps the later.
find_column : String → List CurrentColumn → Option CurrentColumn
find_column name [] = none
find_column name (column ∷ rest) = elim (find_column name rest) [
  | some later ↦ some later
  | none ↦ if str_eq column.name name then some column else none
]

-- SELECT column_name, column_type, is_nullable FROM columns WHERE schema_uuid = ?
pub current_columns : ArrowIpc → List ColumnRow → Result (List CurrentColumn)
current_columns ipc [] = ok []
current_columns ipc (row ∷ rest) = do
  column_type ← decode_data_type ipc row.column_type
  columns ← current_columns ipc rest
  let column : CurrentColumn = record {
    name = row.column_name;
    column_type = column_type;
    is_nullable = row.is_nullable;
  }
  ok (column ∷ columns)

-- No column of the current schema may be missing from the new one.
reject_drops : List String → List CurrentColumn → Result (Unit {0})
reject_drops new_names [] = ok tt
reject_drops new_names (column ∷ rest) = do
  guard (contains new_names column.name)
      (invalid_argument "cannot drop existing column '{}' via UpdateSchema")
  reject_drops new_names rest

check_evolution : Option CurrentColumn → ColumnSpec → Result (Unit {0})
check_evolution none new_column = ok tt
check_evolution (some old) new_column = do
  guard (can_evolve_to old.column_type new_column.column_type)
      (invalid_argument "invalid schema evolution for column '{}': cannot evolve {:?} to {:?}")
  guard (not (old.is_nullable && not new_column.is_nullable)) (
      invalid_argument
        "invalid schema evolution for column '{}': cannot change from nullable to non-nullable (existing nulls would violate constraint)")

check_evolutions : List CurrentColumn → List ColumnSpec → Result (Unit {0})
unfolding check_evolution find_column
check_evolutions current [] = ok tt
check_evolutions current (new_column ∷ rest) = do
  check_evolution (find_column new_column.name current) new_column
  check_evolutions current rest

-- The checks of `UpdateSchema` on the new columns against the current ones.
pub validate_evolution : List CurrentColumn → SchemaSpec → Result (Unit {0})
unfolding reject_drops check_evolutions
validate_evolution current spec = do
  reject_drops (map (λ c. c.name) spec.columns) current
  check_evolutions current spec.columns

module _ {Value Map : Type 0} (lib : Libraries Value Map) (catalog : SqlCatalog) (env : Env) where
  -- `MutationOp::UpdateSchema`
  unfoldable pub apply_update_schema :
      Uuid → Option Uuid → SchemaSpec → Work Map → Result (Work Map)
  unfolding current_columns validate_evolution find
  apply_update_schema table_uuid current spec work = do
    validate_schema spec
    current_schema_uuid ←
        ok_or current (invalid_argument "cannot update schema without a current schema")
    schema ←
        ok_or (find (λ s. s.schema_uuid == current_schema_uuid) work.db.schemas)
          (storage row_not_found)
    columns ←
        current_columns lib.ipc (filter (λ c. c.schema_uuid == current_schema_uuid) work.db.columns)
    validate_evolution columns spec
    let schema_uuid = env.new_v4 work.drawn
    db ←
        insert_schema
          (record {
            schema_uuid = schema_uuid;
            table_uuid = table_uuid;
            schema_version = succ_i32 schema.schema_version;
            valid_from_transaction_id = env.transaction_id;
            valid_to_transaction_id = none;
            created_at = env.now;
          })
          work.db
    let closed = update_schema_end env.transaction_id current_schema_uuid db
    db' ←
        insert_schema_columns lib.ipc env.new_v4 schema_uuid catalog.db_kind (work.drawn + 1)
          spec.columns closed
    ok (record work {
      db = db';
      new_schema_uuid = some schema_uuid;
      drawn = work.drawn + 1 + length spec.columns;
    })
