-- ===== src/Db/Laws.antt =====
-- What the statements that write do when they succeed.
use planar.Base.{
  Bool, true, Option, some, filter, map, not, ◌≡◌, ◌∙◌, List, [], ◌∷◌, ◌++◌, append_assoc,
  append-nil, any, arith,
}
use planar.Base.Eq.{nat_eq}
use planar.Base.Except.{ok, guard-eq-ok, >>=-eq-ok}
use planar.Spec.{Uuid, TxnId, TableIdent}
use planar.Db.{
  Db, TableRow, find, is_none, has_ident, set_head, TransactionRow, SchemaRow, ColumnRow, FileRow,
  insert_rows, insert_table, insert_transaction, insert_schema, insert_columns, insert_files,
  table_clash, transaction_clash, schema_clash, column_clash, file_clash,
}

module _ {A : Type 0} (clash : A → A → Bool) where
  pub insert_rows-append :
      (new rows : List A) {rows' : List A}
      → insert_rows clash new rows ≡ ok rows'
      → rows' ≡ rows ++ new
  unfolding insert_rows
  insert_rows-append [] rows h = ground (arith, append-nil rows)
  insert_rows-append (x ∷ xs) rows h =
      let (_, h') = guard-eq-ok (not (any (clash x) rows)) _ _ h in
      insert_rows-append xs (rows ++ x ∷ []) h' ∙ append_assoc rows (x ∷ []) xs

module _ (db : Db) {db' : Db} where
  pub insert_table_lem :
      (row : TableRow)
      → insert_table row db ≡ ok db'
      → db' ≡ record db { tables = db.tables ++ row ∷ [] }
  unfolding insert_table
  insert_table_lem row h =
      let (tables, ran, e) = >>=-eq-ok (insert_rows table_clash (row ∷ []) db.tables) _ h in
      ground (arith, insert_rows-append table_clash (row ∷ []) db.tables ran)

  pub insert_transaction_lem :
      (row : TransactionRow)
      → insert_transaction row db ≡ ok db'
      → db' ≡ record db { transactions = db.transactions ++ row ∷ [] }
  unfolding insert_transaction
  insert_transaction_lem row h =
      let (rows, ran, h') =
        >>=-eq-ok (insert_rows transaction_clash (row ∷ []) db.transactions) _ h in
      ground (arith, insert_rows-append transaction_clash (row ∷ []) db.transactions ran)

  pub insert_schema_lem :
      (row : SchemaRow)
      → insert_schema row db ≡ ok db'
      → db' ≡ record db { schemas = db.schemas ++ row ∷ [] }
  unfolding insert_schema
  insert_schema_lem row h =
      let (rows, ran, h') = >>=-eq-ok (insert_rows schema_clash (row ∷ []) db.schemas) _ h in
      ground (arith, insert_rows-append schema_clash (row ∷ []) db.schemas ran)

  pub insert_columns_lem :
      (schema_uuid : Uuid) (new : List ColumnRow)
      → insert_columns schema_uuid new db ≡ ok db'
      → db' ≡ record db { columns = db.columns ++ new }
  unfolding insert_columns
  insert_columns_lem schema_uuid new h =
      let (rows, ran, h') = >>=-eq-ok (insert_rows column_clash new db.columns) _ h in
      ground (arith, insert_rows-append column_clash new db.columns ran)

  pub insert_files_lem :
      (table_uuid : Uuid) (transaction_id : TxnId) (new : List FileRow)
      → insert_files table_uuid transaction_id new db ≡ ok db'
      → db' ≡ record db { files = db.files ++ new }
  unfolding insert_files
  insert_files_lem table_uuid transaction_id new h =
      let (rows, ran, h') = >>=-eq-ok (insert_rows file_clash new db.files) _ h in
      ground (arith, insert_rows-append file_clash new db.files ran)

-- A change that the test does not see is made to the row that is found.
pub find-map :
    {A : Type 0} (p : A → Bool) (f : A → A)
    → ((x : A) → p (f x) ≡ p x)
    → (xs : List A) {x : A} → find p xs ≡ some x
    → find p (map f xs) ≡ some (f x)
unfolding find
find-map p f same [] h = cc
find-map p f same (y ∷ ys) {x} h = ground (arith, same y, find-map p f same ys {x = x})

-- A row that is added is found if it passes the test and none before it does.
pub find-append :
    {A : Type 0} (p : A → Bool) (xs : List A) (x : A)
    → is_none (find p xs) ≡ true
    → p x ≡ true
    → find p (xs ++ x ∷ []) ≡ some x
unfolding find
find-append p [] x h passes = ground arith
find-append p (y ∷ ys) x h passes = ground (arith, find-append p ys x)

-- A row that is found is one of those that pass the test.
pub find-any-filter :
    {A : Type 0} (p q : A → Bool) (xs : List A) {x : A}
    → find p xs ≡ some x
    → q x ≡ true
    → any q (filter p xs) ≡ true
unfolding find
find-any-filter p q [] h sat = cc
find-any-filter p q (y ∷ ys) {x} h sat = ground (arith, find-any-filter p q ys {x = x})

pub has_ident-set_head :
    (ident : TableIdent) (id : TxnId) (schema_uuid : Option Uuid) (uuid : Uuid) (t : TableRow)
    → has_ident ident (set_head id schema_uuid uuid t) ≡ has_ident ident t
unfolding set_head
has_ident-set_head ident id schema_uuid uuid t = ground arith
