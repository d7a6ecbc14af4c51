-- ===== src/History/Creates.antt =====
-- `create_table` keeps the invariant.
use planar.Base.{
  ℕ, ◌+◌, String, ◌≡◌, refl, ap, sym, true, false, Option, some, List, [], ◌∷◌, ◌++◌, map, any, All,
  All-append, All-map, All-mono, arith, ==_refl,
}
use mathlib.Core.Path.{subst}
use planar.Base.Eq.{nat_eq}
use planar.Base.Except.{ok}
use planar.Base.Search.{any-append-left, any-last}
use planar.Spec.{Uuid, TxnId, TableIdent, ColumnSpec, SchemaSpec}
use planar.Db.{
  Db, TableRow, TransactionRow, FileRow, ColumnRow, table_with, table_clash, set_head, update_table,
}
use planar.Catalog.{Libraries, SqlCatalog, Env}
use planar.Catalog.Columns.Rows.{column_rows}
use planar.Catalog.Create.{create_table, new_table, first_transaction, first_schema}
use planar.Catalog.Create.Effect.{created, Created, create_table_lem, set_head-new_table}
use planar.History.WellFormed.{
  WellFormed, Headed, Refers, Owned, transaction_of, schema_with, Rooted-append, Owned-map,
}

-- No row of a table that is new can belong to another one.
pub unowned :
    (new : TableRow) (tables : List TableRow)
    → any (table_clash new) tables ≡ false
    → any (table_with new.table_uuid) tables ≡ false
unowned new [] h = refl
unowned new (t ∷ tables) h = ground (arith, unowned new tables)

set_head_uuid :
    (id : TxnId) (schema_uuid : Option Uuid) (uuid : Uuid) (t : TableRow)
    → (set_head id schema_uuid uuid t).table_uuid ≡ t.table_uuid
unfolding set_head
set_head_uuid id schema_uuid uuid t = ground arith

set_head_other :
    (id : TxnId) (schema_uuid : Option Uuid) (uuid : Uuid) (t : TableRow)
    → table_with uuid t ≡ false
    → set_head id schema_uuid uuid t ≡ t
unfolding set_head
set_head_other id schema_uuid uuid t h = ground arith

pub column_rows_schema :
    {Value Map : Type 0} (lib : Libraries Value Map) (env : Env) (schema_uuid : Uuid)
    (drawn ordinal : ℕ) (columns : List ColumnSpec)
    → All
        (λ c. c.schema_uuid ≡ schema_uuid)
        (column_rows lib.ipc env.new_v4 schema_uuid drawn ordinal columns)
unfolding column_rows
column_rows_schema lib env schema_uuid drawn ordinal [] = tt
column_rows_schema lib env schema_uuid drawn ordinal (c ∷ columns) =
    (refl, column_rows_schema lib env schema_uuid (drawn + 1) (ordinal + 1) columns)

-- A table of the database, when another one is added.
pub Headed-append :
    (history : List TransactionRow) (files : List FileRow) (new : TransactionRow) (t : TableRow)
    → Headed history files t
    → Headed (history ++ new ∷ []) files t
Headed-append history files new t h = record {
  head = h.head;
  is_head = h.is_head;
  present = any-append-left (transaction_of t.table_uuid h.head) history (new ∷ []) h.present;
  settled = h.settled;
}

module _ {Value Map : Type 0} (lib : Libraries Value Map) (catalog : SqlCatalog) (env : Env)
    (ident : TableIdent) (location : String) (schema : SchemaSpec) (properties : Option Map)
    (db db' : Db) (c : Created lib catalog env ident location schema properties db db')
    (w : WellFormed db) where
  abbrev row : TableRow
  row = new_table lib catalog env ident location c.text

  abbrev first : TransactionRow
  first = first_transaction lib catalog env

  abbrev head : TableRow → TableRow
  head = set_head env.transaction_id (some (env.new_v4 1)) (env.new_v4 0)

  new_uuid : any (table_with (env.new_v4 0)) db.tables ≡ false
  new_uuid = unowned row db.tables c.table_new

  head-Headed : Headed (db.transactions ++ first ∷ []) db.files (head row)
  head-Headed = rw (set_head-new_table lib catalog env ident location schema c.text) (record {
    head = env.transaction_id;
    is_head = refl;
    present =
        any-last (transaction_of (env.new_v4 0) env.transaction_id) db.transactions first
          (ground arith);
    settled =
        All-mono (λ f owned own. absurd (ground (arith, ap (Owned db.tables) own, new_uuid)))
          db.files w.refers.files;
  })

  tables_lem :
      (tables : List TableRow)
      → All (Headed db.transactions db.files) tables
      → any (table_with (env.new_v4 0)) tables ≡ false
      → All (λ t. Headed (db.transactions ++ first ∷ []) db.files (head t)) tables
  tables_lem [] h new = tt
  tables_lem (t ∷ tables) h new = (
    rw (set_head_other env.transaction_id (some (env.new_v4 1)) (env.new_v4 0) t (ground arith))
        (Headed-append db.transactions db.files first t h.0),
    tables_lem tables h.1 (ground arith),
  )

  Owned-after : (uuid : Uuid) → Owned db.tables uuid → Owned (map head (db.tables ++ row ∷ [])) uuid
  Owned-after uuid h =
      Owned-map head (set_head_uuid env.transaction_id (some (env.new_v4 1)) (env.new_v4 0))
        (db.tables ++ row ∷ []) uuid (any-append-left (table_with uuid) db.tables (row ∷ []) h)

  own_table : Owned (map head (db.tables ++ row ∷ [])) (env.new_v4 0)
  own_table =
      Owned-map head (set_head_uuid env.transaction_id (some (env.new_v4 1)) (env.new_v4 0))
        (db.tables ++ row ∷ []) (env.new_v4 0)
        (any-last (table_with (env.new_v4 0)) db.tables row (==_refl (env.new_v4 0)))

  created-Refers : Refers (created lib catalog env ident location schema c.text db)
  unfolding update_table
  created-Refers =
      let columns = column_rows lib.ipc env.new_v4 (env.new_v4 1) 2 1 schema.columns in
      let tables = map head (db.tables ++ row ∷ []) in
      let of_new = first_schema lib catalog env in
      let referred =
        λ (c : ColumnRow). any (schema_with c.schema_uuid) (db.schemas ++ of_new ∷ []) ≡ true in
      record {
        schemas =
            All-append (λ s. Owned tables s.table_uuid) db.schemas (of_new ∷ [])
              (All-mono (λ s. Owned-after s.table_uuid) db.schemas w.refers.schemas)
              (own_table, tt);
        columns =
            All-append referred db.columns columns
              (All-mono (λ c. any-append-left (schema_with c.schema_uuid) db.schemas (of_new ∷ []))
                db.columns w.refers.columns)
              (All-mono
                (λ c own. any-last (schema_with c.schema_uuid) db.schemas of_new (ground arith))
                columns (column_rows_schema lib env (env.new_v4 1) 2 1 schema.columns));
        files = All-mono (λ f. Owned-after f.table_uuid) db.files w.refers.files;
      }

  created-WellFormed : WellFormed (created lib catalog env ident location schema c.text db)
  unfolding update_table
  created-WellFormed = record {
    tables =
        All-map (Headed (db.transactions ++ first ∷ []) db.files) head (db.tables ++ row ∷ []) (
          All-append (λ t. Headed (db.transactions ++ first ∷ []) db.files (head t)) db.tables
            (row ∷ []) (tables_lem db.tables w.tables new_uuid) (head-Headed, tt));
    history = Rooted-append db.transactions first w.history (λ parent is. absurd (ground arith));
    refers = created-Refers;
  }

module _ {Value Map : Type 0} (lib : Libraries Value Map) (catalog : SqlCatalog) (env : Env) where
  pub create_table-WellFormed :
      (ident : TableIdent) (location : String) (schema : SchemaSpec) (properties : Option Map)
      (db db' : Db)
      → create_table lib catalog env ident location schema properties db ≡ ok db'
      → WellFormed db
      → WellFormed db'
  create_table-WellFormed ident location schema properties db db' ran w =
      let c = create_table_lem lib catalog env ident location schema properties db ran in
      subst WellFormed (sym c.db_is)
        (created-WellFormed lib catalog env ident location schema properties db db' c w)
