-- ===== src/Db.antt =====
-- The catalog's tables (db/migrations) as lists of rows, and the SQL statements of catalog/mod.rs
-- as functions on them. A statement checks the keys and the references that the migrations declare.
-- The row types are those of catalog/schema.rs, with JSON as the text that is stored.
pub mod Laws
pub mod Fresh
use planar.Base.{
  ℕ, String, Bool, true, false, not, ◌&&◌, ◌||◌, Option, none, some, List, [], ◌∷◌, ◌++◌, map, any,
  filter, if◌then◌else◌, ◌==◌,
}
use planar.Base.Int.{ℤ}
use planar.Base.Eq.{contains, nat_eq}
use planar.Base.Except.{ok, guard, ◌>>=◌, ◌>>◌}
use planar.Error.{Result, storage, unique_violation, foreign_key_violation}
use planar.DataType.Codec.{Bytes}
use planar.Spec.{Uuid, TxnId, TableIdent}
use text.Mathlib.Text.{◌==◌ as str_eq}

pub record TableRow : Type 0 where
  pub table_uuid : Uuid
  pub table_name : String
  pub namespace : String
  pub location : String
  pub current_schema_uuid : Option Uuid
  pub current_transaction_id : Option TxnId
  pub created_at : ℕ
  pub properties : Option String
  pub min_reader_version : ℤ
  pub min_writer_version : ℤ

pub record TransactionRow : Type 0 where
  pub transaction_id : TxnId
  pub table_uuid : Uuid
  pub transaction_timestamp : ℕ
  pub parent_transaction_id : Option TxnId

pub record SchemaRow : Type 0 where
  pub schema_uuid : Uuid
  pub table_uuid : Uuid
  pub schema_version : ℤ
  pub valid_from_transaction_id : TxnId
  pub valid_to_transaction_id : Option TxnId
  pub created_at : ℕ

pub record ColumnRow : Type 0 where
  pub column_uuid : Uuid
  pub schema_uuid : Uuid
  pub column_name : String
  pub column_type : Bytes
  pub ordinal_position : ℤ
  pub is_nullable : Bool

pub record FileRow : Type 0 where
  pub file_uuid : Uuid
  pub table_uuid : Uuid
  pub file_format : String
  pub file_path : String
  pub record_count : ℤ
  pub file_size_bytes : ℤ
  pub added_in_transaction_id : TxnId
  pub removed_in_transaction_id : Option TxnId
  pub partition_values : Option String
  pub format_options : Option String

pub record TableStats : Type 0 where
  pub table_uuid : Uuid
  pub transaction_id : TxnId
  pub record_count : ℤ
  pub file_size_bytes : ℤ
  pub file_count : ℤ
  pub last_updated : ℕ

pub record Db : Type 0 where
  pub tables : List TableRow
  pub transactions : List TransactionRow
  pub schemas : List SchemaRow
  pub columns : List ColumnRow
  pub files : List FileRow
  pub table_stats : List TableStats

-- `fetch_optional`: the first row that passes the test.
module _ {A : Type 0} where
  unfoldable pub find : (A → Bool) → List A → Option A
  find p [] = none
  find p (x ∷ xs) = let rest = find p xs in if p x then some x else rest

  -- Inserting rows one after the other, each against a uniqueness test.
  unfoldable pub insert_rows : (A → A → Bool) → List A → List A → Result (List A)
  insert_rows clash [] rows = ok rows
  insert_rows clash (x ∷ xs) rows = do
    guard (not (any (clash x) rows)) (storage unique_violation)
    insert_rows clash xs (rows ++ x ∷ [])

  -- A reference must name a row.
  abbrev pub references : (A → Bool) → List A → Result (Unit {0})
  references p rows = guard (any p rows) (storage foreign_key_violation)

abbrev pub has_ident : TableIdent → TableRow → Bool
has_ident ident t = str_eq t.namespace ident.namespace && str_eq t.table_name ident.name

-- SELECT … FROM tables WHERE namespace = ? AND table_name = ?
unfoldable pub find_table : TableIdent → Db → Option TableRow
unfolding find
find_table ident db = find (has_ident ident) db.tables

abbrev pub table_clash : TableRow → TableRow → Bool
table_clash a b =
    a.table_uuid == b.table_uuid
    || str_eq a.namespace b.namespace && str_eq a.table_name b.table_name

-- INSERT INTO tables
unfoldable pub insert_table : TableRow → Db → Result Db
unfolding insert_rows
insert_table row db = do
  tables ← insert_rows table_clash (row ∷ []) db.tables
  ok (record db { tables = tables })

abbrev pub table_with : Uuid → TableRow → Bool
table_with uuid t = t.table_uuid == uuid

abbrev pub transaction_with : TxnId → TransactionRow → Bool
transaction_with id t = t.transaction_id == id

abbrev references_parent : Option TxnId → Db → Result (Unit {0})
references_parent none db = ok tt
references_parent (some parent) db = references (transaction_with parent) db.transactions

abbrev pub transaction_clash : TransactionRow → TransactionRow → Bool
transaction_clash a b = a.transaction_id == b.transaction_id

-- INSERT INTO transactions
unfoldable pub insert_transaction : TransactionRow → Db → Result Db
unfolding insert_rows
insert_transaction row db = do
  rows ← insert_rows transaction_clash (row ∷ []) db.transactions
  references (table_with row.table_uuid) db.tables
  references_parent row.parent_transaction_id db
  ok (record db { transactions = rows })

abbrev pub schema_clash : SchemaRow → SchemaRow → Bool
schema_clash a b = a.schema_uuid == b.schema_uuid

-- INSERT INTO schemas
unfoldable pub insert_schema : SchemaRow → Db → Result Db
unfolding insert_rows
insert_schema row db = do
  rows ← insert_rows schema_clash (row ∷ []) db.schemas
  references (table_with row.table_uuid) db.tables
  references (transaction_with row.valid_from_transaction_id) db.transactions
  ok (record db { schemas = rows })

abbrev pub column_clash : ColumnRow → ColumnRow → Bool
column_clash a b =
    a.column_uuid == b.column_uuid
    || a.schema_uuid == b.schema_uuid && str_eq a.column_name b.column_name

-- INSERT INTO columns VALUES …, all rows of one schema
unfoldable pub insert_columns : Uuid → List ColumnRow → Db → Result Db
insert_columns schema_uuid new db = do
  rows ← insert_rows column_clash new db.columns
  references (λ s. s.schema_uuid == schema_uuid) db.schemas
  ok (record db { columns = rows })

abbrev file_clash : FileRow → FileRow → Bool
file_clash a b = a.file_uuid == b.file_uuid

-- INSERT INTO files VALUES …, all rows of one table and one transaction
unfoldable pub insert_files : Uuid → TxnId → List FileRow → Db → Result Db
insert_files table_uuid transaction_id new db = do
  rows ← insert_rows file_clash new db.files
  references (table_with table_uuid) db.tables
  references (transaction_with transaction_id) db.transactions
  ok (record db { files = rows })

abbrev pub is_none {ℓ} : {A : Type ℓ} → Option A → Bool
is_none none = true
is_none (some a) = false

-- UPDATE files SET removed_in_transaction_id = ?
-- WHERE table_uuid = ? AND removed_in_transaction_id IS NULL AND file_uuid IN (…)
unfoldable pub mark_removed : Uuid → TxnId → List Uuid → FileRow → FileRow
mark_removed table_uuid transaction_id chunk f =
    if f.table_uuid == table_uuid
      && is_none f.removed_in_transaction_id
      && contains chunk f.file_uuid
    then record f { removed_in_transaction_id = some transaction_id }
    else f

unfoldable pub remove_files : Uuid → TxnId → List Uuid → Db → Db
remove_files table_uuid transaction_id chunk db = record db {
  files = map (mark_removed table_uuid transaction_id chunk) db.files;
}

-- UPDATE schemas SET valid_to_transaction_id = ? WHERE schema_uuid = ?
unfoldable pub close_schema : TxnId → Uuid → SchemaRow → SchemaRow
close_schema transaction_id schema_uuid s =
    if s.schema_uuid == schema_uuid
    then record s { valid_to_transaction_id = some transaction_id }
    else s

unfoldable pub update_schema_end : TxnId → Uuid → Db → Db
update_schema_end transaction_id schema_uuid db = record db {
  schemas = map (close_schema transaction_id schema_uuid) db.schemas;
}

-- UPDATE tables SET current_transaction_id = ?, current_schema_uuid = ? [, properties = ?]
-- WHERE table_uuid = ?
unfoldable pub set_head : TxnId → Option Uuid → Uuid → TableRow → TableRow
set_head transaction_id schema_uuid table_uuid t =
    if t.table_uuid == table_uuid
    then record t {
      current_transaction_id = some transaction_id;
      current_schema_uuid = schema_uuid;
    }
    else t

unfoldable pub set_properties_text : String → Uuid → TableRow → TableRow
set_properties_text text table_uuid t =
    if t.table_uuid == table_uuid then record t { properties = some text } else t

unfoldable pub update_table : (TableRow → TableRow) → Db → Db
update_table f db = record db { tables = map f db.tables }

-- DELETE FROM tables WHERE namespace = ? AND table_name = ?: no row that is left may refer to a
-- deleted one. The result is the number of deleted rows.
unfoldable pub referenced : Db → TableRow → Bool
referenced db t =
    any (λ r. r.table_uuid == t.table_uuid) db.transactions
    || any (λ r. r.table_uuid == t.table_uuid) db.schemas
    || any (λ r. r.table_uuid == t.table_uuid) db.files
    || any (λ r. r.table_uuid == t.table_uuid) db.table_stats

unfoldable pub delete_table : TableIdent → Db → Result (Db × List TableRow)
unfolding referenced
delete_table ident db = do
  let deleted = filter (has_ident ident) db.tables
  guard (not (any (referenced db) deleted)) (storage foreign_key_violation)
  ok (record db { tables = filter (λ t. not (has_ident ident t)) db.tables }, deleted)
