-- ===== src/Catalog/Create/Drop.antt =====
-- `drop_table` against `create_table`.
use planar.Base.{
  String, ◌≡◌, refl, Option, some, List, [], ◌∷◌, ◌++◌, arith, Bool, true, ◌||◌, any, filter, ◌==◌,
}
use planar.Base.Eq.{nat_eq}
use planar.Base.Except.{ok, err}
use planar.Error.{storage, foreign_key_violation}
use planar.Spec.{TableIdent, SchemaSpec}
use planar.Db.{
  Db, TableRow, TransactionRow, has_ident, find_table, referenced, delete_table, update_table,
}
use planar.Db.Laws.{find-any-filter}
use planar.Catalog.{Libraries, SqlCatalog, Env}
use planar.Catalog.Create.{create_table, first_transaction}
use planar.Catalog.Create.Effect.{created, created_row, find_table-created, create_table_lem}
use planar.Catalog.Read.{drop_table}

any-append :
    {A : Type 0} (p : A → Bool) (xs ys : List A) → any p (xs ++ ys) ≡ (any p xs || any p ys)
any-append p [] ys = refl
any-append p (x ∷ xs) ys = ground (arith, any-append p xs ys)

-- A dropped row that a transaction refers to fails the statement.
drop_table-referenced :
    (ident : TableIdent) (db : Db)
    → any (referenced db) (filter (has_ident ident) db.tables) ≡ true
    → drop_table ident db ≡ err (storage foreign_key_violation)
unfolding drop_table delete_table
drop_table-referenced ident db h = rw h

-- `drop_table` never drops a table that has a row in the history: it fails with a violated foreign
-- key. The table is the first of its identifier.
pub drop_table-transaction :
    (ident : TableIdent) (db : Db) (row : TableRow)
    → find_table ident db ≡ some row
    → any (λ r. r.table_uuid == row.table_uuid) db.transactions ≡ true
    → drop_table ident db ≡ err (storage foreign_key_violation)
unfolding find_table referenced
drop_table-transaction ident db row found some_transaction =
    drop_table-referenced ident db
      (find-any-filter (has_ident ident) (referenced db) db.tables found (ground arith))

module _ {Value Map : Type 0} (lib : Libraries Value Map) (catalog : SqlCatalog) (env : Env) where
  -- A table that was just created cannot be dropped: `drop_table` fails with a violated foreign key,
  -- since `create_table` added a transaction that refers to the table, and the statement deletes
  -- only the row of the table.
  pub drop_table-create_table :
      (ident : TableIdent) (location : String) (schema : SchemaSpec) (properties : Option Map)
      (db db' : Db)
      → create_table lib catalog env ident location schema properties db ≡ ok db'
      → drop_table ident db' ≡ err (storage foreign_key_violation)
  unfolding update_table
  drop_table-create_table ident location schema properties db db' ran =
      let c = create_table_lem lib catalog env ident location schema properties db ran in
      let state = created lib catalog env ident location schema c.text db in
      let row = created_row lib catalog env ident location schema c.text in
      let own = λ (r : TransactionRow). r.table_uuid == env.new_v4 0 in
      let some_transaction : any own state.transactions ≡ true =
        ground (arith, any-append own db.transactions (first_transaction lib catalog env ∷ [])) in
      rw c.db_is (
        drop_table-transaction ident state row
          (find_table-created lib catalog env ident location schema c.text db c.unknown)
          some_transaction)
