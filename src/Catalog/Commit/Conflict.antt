-- ===== src/Catalog/Commit/Conflict.antt =====
-- Optimistic concurrency: a commit moves the head of its table, so that of two commits on one base
-- at most one succeeds.
use planar.Base.{
  String, ◌≡◌, ◌≢◌, refl, ap, sym, ◌∙◌, Option, some, List, [], ◌∷◌, ◌++◌, map, arith,
  some-injective,
}
use planar.Base.Eq.{nat_eq}
use planar.Base.Except.{ok, ok_or, ◌>>=◌}
use planar.Error.{not_found, invalid_argument}
use planar.Spec.{Uuid, TxnId, TableIdent, Mutation}
use planar.Db.{
  Db, TableRow, find, find_table, has_ident, set_head, set_properties_text, update_table,
}
use planar.Db.Laws.{find-map}
use planar.Catalog.{Libraries, SqlCatalog, Env, Work}
use planar.Catalog.Read.{current_transaction_id}
use planar.Catalog.Commit.{commit, commit_transaction, option_or}
use planar.Catalog.Commit.Effect.{Committed, apply_ops_induction, commit_lem, start_work, new_head}
use planar.Catalog.Commit.Ops.{apply_op_lem}

module _ {Value Map : Type 0} (lib : Libraries Value Map) (catalog : SqlCatalog) (env : Env) where
  Untouched : Work Map → Work Map → Type 0
  Untouched v w = (w.db.tables ≡ v.db.tables) × (w.db.transactions ≡ v.db.transactions)

  has_ident-new_head :
      (ident : TableIdent) (text : String) (schema_uuid : Option Uuid) (uuid : Uuid) (t : TableRow)
      → has_ident ident (new_head lib catalog env text schema_uuid uuid t) ≡ has_ident ident t
  unfolding set_head set_properties_text
  has_ident-new_head ident text schema_uuid uuid t = ground arith

  pub new_head_lem :
      (text : String) (schema_uuid : Option Uuid) (t : TableRow)
      → new_head lib catalog env text schema_uuid t.table_uuid t ≡ record t {
        current_transaction_id = some env.transaction_id;
        current_schema_uuid = schema_uuid;
        properties = some text;
      }
  unfolding set_head set_properties_text
  new_head_lem text schema_uuid t = ground arith

  -- The table's row after a commit, and the new row of the history.
  record Moved (ident : TableIdent) (base : TxnId) (row : TableRow) (db db' : Db) : Type 0 where
    text : String
    schema_uuid : Option Uuid
    found :
        find_table ident db'
        ≡ some (record row {
          current_transaction_id = some env.transaction_id;
          current_schema_uuid = schema_uuid;
          properties = some text;
        })
    history :
        db'.transactions
        ≡ db.transactions ++ commit_transaction lib catalog env row.table_uuid base ∷ []

  Committed-Moved :
      (ident : TableIdent) (base : TxnId) (mutation : Mutation Value Map) (db db' : Db)
      (c : Committed lib catalog env ident base mutation db db')
      → Moved ident base c.row db db'
  unfolding update_table find_table Untouched
  Committed-Moved ident base mutation db db' c =
      let start = start_work lib catalog env db c.row c.properties base in
      let (tables, transactions) =
        apply_ops_induction lib catalog env Untouched c.row.table_uuid c.row.current_schema_uuid
          (λ w. (refl, refl)) (λ u v w p q. (q.0 ∙ p.0, q.1 ∙ p.1))
          (λ op v w ran.
            let e =
              apply_op_lem lib catalog env c.row.table_uuid c.row.current_schema_uuid op v w ran in
            (e.tables, e.transactions))
          mutation.operations start c.work c.ran in
      let schema_uuid =
        option_or lib catalog env c.work.new_schema_uuid c.row.current_schema_uuid in
      let move = new_head lib catalog env c.text schema_uuid c.row.table_uuid in
      record {
        text = c.text;
        schema_uuid = schema_uuid;
        found =
            ap (λ (d : Db). find (has_ident ident) d.tables) c.db_is
            ∙ ap (λ (ts : List TableRow). find (has_ident ident) (map move ts)) tables
            ∙ find-map (has_ident ident) move
                (has_ident-new_head ident c.text schema_uuid c.row.table_uuid) db.tables c.found
            ∙ ap some (new_head_lem c.text schema_uuid c.row);
        history = ap (λ (d : Db). d.transactions) c.db_is ∙ transactions;
      }

  -- A successful commit on a table moves its head from the base to the new transaction, and extends
  -- the history by exactly one row, whose parent is the base.
  pub commit-current_transaction_id :
      (ident : TableIdent) (base : TxnId) (mutation : Mutation Value Map) (db db' : Db) (id : TxnId)
      (row : TableRow)
      → find_table ident db ≡ some row
      → commit lib catalog env ident base mutation db ≡ ok (db', id)
      → (current_transaction_id ident db ≡ ok base)
        × (current_transaction_id ident db' ≡ ok id)
        × (db'.transactions
            ≡ db.transactions
              ++ record {
                transaction_id = id;
                table_uuid = row.table_uuid;
                transaction_timestamp = env.now;
                parent_transaction_id = some base;
              }
                ∷ [])
  unfolding current_transaction_id
  commit-current_transaction_id ident base mutation db db' id row found ran =
      let (c, is_id) = commit_lem lib catalog env ident base mutation db ran in
      let same : c.row ≡ row = some-injective (sym c.found ∙ found) in
      let moved = Committed-Moved ident base mutation db db' c in
      let head_of = λ (o : Option TableRow). ok_or o (not_found "{}.{}") >>= λ (r : TableRow).
      ok_or r.current_transaction_id (invalid_argument "table has no current transaction") in
      let history = λ (uuid : Uuid) (t : TxnId).
        db.transactions
        ++ record {
          transaction_id = t;
          table_uuid = uuid;
          transaction_timestamp = env.now;
          parent_transaction_id = some base;
        }
          ∷ [] in
      (
        ap head_of c.found
            ∙ ap
                (λ (o : Option TxnId).
                  ok_or o (invalid_argument "table has no current transaction"))
                c.head,
        ap head_of moved.found ∙ ap (λ (t : TxnId). ok t) (sym is_id),
        moved.history
            ∙ ap (λ (r : TableRow). history r.table_uuid env.transaction_id) same
            ∙ ap (history row.table_uuid) (sym is_id),
      )

  -- Of two commits on one base at most one succeeds: after a successful commit, whose transaction is
  -- not the base itself, no commit on the same base succeeds, whatever its mutation, its client and
  -- its clock, and whatever identifiers it draws.
  pub commit-commit :
      (ident : TableIdent) (base : TxnId) (mutation : Mutation Value Map) (db db' : Db) (id : TxnId)
      (catalog' : SqlCatalog) (env' : Env) (mutation' : Mutation Value Map) (result : Db × TxnId)
      → commit lib catalog env ident base mutation db ≡ ok (db', id)
      → id ≢ base
      → commit lib catalog' env' ident base mutation' db' ≢ ok result
  commit-commit ident base mutation db db' id catalog' env' mutation' result ran new again =
      let (c, is_id) = commit_lem lib catalog env ident base mutation db ran in
      let moved = Committed-Moved ident base mutation db db' c in
      let d = (commit_lem lib catalog' env' ident base mutation' db' again).0 in
      let same = some-injective (sym moved.found ∙ d.found) in
      let heads : some env.transaction_id ≡ some base =
        ap (λ (r : TableRow). r.current_transaction_id) same ∙ d.head in
      new (is_id ∙ some-injective heads)
