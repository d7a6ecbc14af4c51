-- ===== src/History/Reachable.antt =====
-- The databases that calls can reach, and what holds in all of them.
use planar.Base.{
  ◌≡◌, ◌≢◌, ◌↔◌, refl, ap, sym, ◌∙◌, ◌<◌, ◌^◌, Bool, true, false, not, List, [], ◌∷◌, filter, any,
  All, All-mono, arith, ◌==◌, length, ltb, some, none, some-injective, Option, String,
}
use mathlib.Core.Path.{subst}
use planar.Base.Eq.{nat_eq}
use planar.Base.Except.{ok, guard-eq-ok, >>=-eq-ok, ok-injective}
use planar.Base.Search.{any-weaker}
use planar.DataType.Codec.{IpcRoundTrips}
use planar.Db.{
  Db, TableRow, SchemaRow, table_with, schema_clash, referenced, has_ident, delete_table,
  find_table,
}
use planar.Db.Fresh.{find-All}
use planar.Spec.{Uuid, TxnId, TableIdent, SchemaSpec, Mutation}
use planar.Catalog.{Libraries, SqlCatalog, Env}
use planar.Catalog.Chain.{is_ancestor}
use planar.Catalog.Chain.Lineage.{Ancestor}
use planar.Catalog.Commit.{commit}
use planar.Catalog.Commit.Effect.{commit_lem}
use planar.Catalog.Commit.Refinement.{Steps, Settled, commit-Steps}
use planar.Catalog.Create.{unwrap_or_default, create_table, new_table, first_schema}
use planar.Catalog.Create.Effect.{create_table_lem}
use planar.Catalog.Create.RoundTrip.{JsonRoundTrips, first_view, create_table-read_table}
use planar.Catalog.Read.{read_table, drop_table}
use planar.Catalog.Rows.{files_at}
use planar.History.{Later, no_rows, Step, creates, commits, drops, Run, Run_induction}
use planar.History.Ancestry.{is_ancestor-decides}
use planar.History.WellFormed.{WellFormed, Headed, no_rows-WellFormed, transaction_of, schema_with}
use planar.History.Creates.{unowned, create_table-WellFormed}
use planar.History.Heads.{Headed-earlier, commit-WellFormed}

-- A table with a head is referred to.
Headed-referenced :
    (db : Db) (t : TableRow) → Headed db.transactions db.files t → referenced db t ≡ true
unfolding referenced
Headed-referenced db t h = ground (
  arith,
  any-weaker (transaction_of t.table_uuid h.head) (λ r. r.table_uuid == t.table_uuid)
      db.transactions (λ r passes. ground arith) h.present,
)

any-referenced :
    (db : Db) (ident : TableIdent) (tables : List TableRow)
    → All (Headed db.transactions db.files) tables
    → ltb 0 (length (filter (has_ident ident) tables)) ≡ true
    → any (referenced db) (filter (has_ident ident) tables) ≡ true
any-referenced db ident [] h some_row = absurd (ground arith)
any-referenced db ident (t ∷ tables) h some_row =
    ground (arith, Headed-referenced db t h.0, any-referenced db ident tables h.1)

WellFormed-drop_table :
    (ident : TableIdent) (db db' : Db) → WellFormed db → drop_table ident db ≢ ok db'
unfolding drop_table delete_table
WellFormed-drop_table ident db db' w h =
    let deleted = filter (has_ident ident) db.tables in
    let (result, ran, h₁) = >>=-eq-ok (delete_table ident db) _ h in
    let (free, e) = guard-eq-ok (not (any (referenced db) deleted)) _ _ ran in
    let (some_row, h₂) = guard-eq-ok (ltb 0 (length result.1)) _ _ h₁ in
    let same : deleted ≡ result.1 = ap (λ (r : Db × List TableRow). r.1) (ok-injective e) in
    let busy = any-referenced db ident db.tables w.tables (rw same some_row) in
    absurd (ground arith)

-- A row whose owner exists does not belong to a table that does not.
unowned_ne :
    {A : Type 0} (test : Uuid → A → Bool) (rows : List A) (new uuid : Uuid)
    → any (test new) rows ≡ false
    → any (test uuid) rows ≡ true
    → uuid ≢ new
unowned_ne test rows new uuid none_new some_row same =
    absurd (ground (arith, ap (λ (u : Uuid). any (test u) rows) same))

unclashed :
    (s : SchemaRow) (schemas : List SchemaRow)
    → any (schema_clash s) schemas ≡ false
    → any (schema_with s.schema_uuid) schemas ≡ false
unclashed s [] h = refl
unclashed s (t ∷ schemas) h = ground (arith, unclashed s schemas)

module _ {Value Map : Type 0} (lib : Libraries Value Map) where
  -- Every successful call keeps the invariant: a creation, a commit of any operations on any
  -- table, and a drop.
  Step-WellFormed : (db db' : Db) → Step lib db db' → WellFormed db → WellFormed db'
  Step-WellFormed db db' (creates catalog env ident location schema properties later ran) w =
      create_table-WellFormed lib catalog env ident location schema properties db db' ran w
  Step-WellFormed db db' (commits catalog env ident base mutation id later ran) w =
      commit-WellFormed lib catalog env ident base mutation db db' id ran later w
  Step-WellFormed db db' (drops ident ran) w = absurd (WellFormed-drop_table ident db db' w ran)

  -- Whatever successful calls of whatever clients follow one another from the empty database, with
  -- transaction IDs that grow: every table has a head in its own history, and no file of it is
  -- newer than the head; the parent of every transaction is an earlier one of the same table; and
  -- every schema and file belongs to a table, every column to a schema.
  pub Run-WellFormed : (db : Db) → Run lib no_rows db → WellFormed db
  Run-WellFormed db run = Run_induction lib WellFormed Step-WellFormed run no_rows-WellFormed

  -- In a database that successful calls with growing transaction IDs have made from the empty one,
  -- `drop_table` never succeeds, for any identifier: no table is ever without a transaction.
  pub Run-drop_table :
      (ident : TableIdent) (db db' : Db) → Run lib no_rows db → drop_table ident db ≢ ok db'
  Run-drop_table ident db db' run = WellFormed-drop_table ident db db' (Run-WellFormed db run)

  -- The head of a table that is found, with what holds of it.
  pub found_Headed :
      (ident : TableIdent) (db : Db) (row : TableRow)
      → Run lib no_rows db
      → find_table ident db ≡ some row
      → Headed db.transactions db.files row
  unfolding find_table
  found_Headed ident db row run found =
      (find-All (has_ident ident) (Headed db.transactions db.files) db.tables
        (Run-WellFormed db run).tables found).1

  -- In a database that successful calls with growing transaction IDs have made from the empty one,
  -- the history check of a table from its head always ends with an answer, for every requested
  -- transaction: it reports no cycle and no broken chain. The answer is yes exactly if the
  -- requested transaction is the head or is reached from it by parents.
  pub Run-is_ancestor :
      (ident : TableIdent) (db : Db) (row : TableRow) (head target : TxnId)
      → Run lib no_rows db
      → find_table ident db ≡ some row
      → row.current_transaction_id ≡ some head
      → (answer : Bool) × (is_ancestor db row.table_uuid target head ≡ ok answer)
        × ((answer ≡ true) ↔ Ancestor db row.table_uuid target head)
  Run-is_ancestor ident db row head target run found is_head =
      let h = found_Headed ident db row run found in
      let same : h.head ≡ head = some-injective (sym h.is_head ∙ is_head) in
      is_ancestor-decides db row.table_uuid (Run-WellFormed db run).history target head (
        subst (λ (t : TxnId). any (transaction_of row.table_uuid t) db.transactions ≡ true) same
          h.present)

  -- In a database that successful calls with growing transaction IDs have made from the empty one,
  -- a successful commit, whose transaction is later than all before it, implements its
  -- specification: the files that a read at the new transaction finds are those that a read at the
  -- base found before, changed by the mutation's operations one after the other.
  pub Run-commit :
      (catalog : SqlCatalog) (env : Env) (ident : TableIdent) (base : TxnId)
      (mutation : Mutation Value Map) (db db' : Db) (id : TxnId) (row : TableRow)
      → Run lib no_rows db
      → Later env db
      → find_table ident db ≡ some row
      → commit lib catalog env ident base mutation db ≡ ok (db', id)
      → Steps lib env row.table_uuid mutation.operations
          (files_at row.table_uuid base db)
          (files_at row.table_uuid id db')
  Run-commit catalog env ident base mutation db db' id row run later found ran =
      let h = found_Headed ident db row run found in
      let (c, is_id) = commit_lem lib catalog env ident base mutation db ran in
      let same : c.row ≡ row = some-injective (sym c.found ∙ found) in
      let is_base : row.current_transaction_id ≡ some base =
        ap (λ (r : TableRow). r.current_transaction_id) (sym same) ∙ c.head in
      let before : base < id = rw is_id (Headed-earlier env db row base later h is_base) in
      (commit-Steps lib catalog env ident base mutation db db' id row found ran before (
        subst (λ (t : TxnId). Settled row.table_uuid t db.files)
          (some-injective (sym h.is_head ∙ is_base)) h.settled)).0

  -- In a database that successful calls with growing transaction IDs have made from the empty one,
  -- a table that is created can be read by the client that created it: if the schema has fewer than
  -- 2^32 columns, the IPC library reads the types of the columns as it wrote them, and the JSON
  -- library reads the properties of this call as it wrote them, then after a successful `create_table` a read of the current
  -- transaction returns the columns of the schema in order, no files, and the given properties. The
  -- identifiers that the call draws need no further condition: the keys of the tables make them new.
  pub Run-create_table :
      (catalog : SqlCatalog) (env : Env) (ident : TableIdent) (location : String)
      (schema : SchemaSpec) (properties : Option Map) (db db' : Db)
      → Run lib no_rows db
      → create_table lib catalog env ident location schema properties db ≡ ok db'
      → length schema.columns < 2 ^ 32
      → All (λ c. IpcRoundTrips lib.ipc c.column_type) schema.columns
      → JsonRoundTrips lib.json (unwrap_or_default lib catalog env properties)
      → read_table lib catalog ident none db'
        ≡ ok (first_view lib catalog env ident location schema properties db)
  Run-create_table catalog env ident location schema properties db db' run ran few ipc json =
      let c = create_table_lem lib catalog env ident location schema properties db ran in
      let w = Run-WellFormed db run in
      let new = unowned (new_table lib catalog env ident location c.text) db.tables c.table_new in
      let new_schema = unclashed (first_schema lib catalog env) db.schemas c.schema_new in
      create_table-read_table lib catalog env ident location schema properties db db' ran
        (record {
          schemas =
              All-mono (λ s own. unowned_ne table_with db.tables _ s.table_uuid new own) db.schemas
                w.refers.schemas;
          columns =
              All-mono (λ k own. unowned_ne schema_with db.schemas _ k.schema_uuid new_schema own)
                db.columns w.refers.columns;
          files =
              All-mono (λ f own. unowned_ne table_with db.tables _ f.table_uuid new own) db.files
                w.refers.files;
        })
        few ipc json
