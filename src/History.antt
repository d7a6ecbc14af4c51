-- ===== src/History.antt =====
-- catalog/mod.rs: the calls that write (`create_table`, `commit`, `drop_table`), one after the other
-- on one database, as a step relation. A call that fails leaves the database as it was (each runs in
-- a transaction that is rolled back), so the steps are the calls that succeed. Any client may make
-- the next call: the catalog's backend and protocol versions and the environment are the step's.
pub mod Travel
pub mod WellFormed
pub mod Creates
pub mod Commits
pub mod Heads
pub mod Ancestry
pub mod Reachable
pub mod Progress
use planar.Base.{ℕ, String, Option, List, [], ◌<◌, ◌≡◌, All}
use planar.Base.Except.{ok}
use planar.Spec.{TxnId, TableIdent, SchemaSpec, Mutation}
use planar.Db.{Db}
use planar.Catalog.{Libraries, SqlCatalog, Env}
use planar.Catalog.Create.{create_table}
use planar.Catalog.Commit.{commit}
use planar.Catalog.Read.{drop_table}

-- The database after the migrations.
abbrev pub no_rows : Db
no_rows = record {
  tables = [];
  transactions = [];
  schemas = [];
  columns = [];
  files = [];
  table_stats = [];
}

-- `next_transaction_id` draws a version-7 UUID, and these grow with time: the one of the call is
-- later than every transaction of the database.
abbrev pub Later : Env → Db → Type 0
Later env db = All (λ t. t.transaction_id < env.transaction_id) db.transactions

module _ {Value Map : Type 0} (lib : Libraries Value Map) where
  pub data Step (db db' : Db) : Type 0 where
    creates :
        (catalog : SqlCatalog) (env : Env) (ident : TableIdent) (location : String)
        (schema : SchemaSpec) (properties : Option Map)
        → Later env db
        → create_table lib catalog env ident location schema properties db ≡ ok db'
        → Step db db'
    commits :
        (catalog : SqlCatalog) (env : Env) (ident : TableIdent) (base : TxnId)
        (mutation : Mutation Value Map) (id : TxnId)
        → Later env db
        → commit lib catalog env ident base mutation db ≡ ok (db', id)
        → Step db db'
    drops : (ident : TableIdent) → drop_table ident db ≡ ok db' → Step db db'

  -- Steps, one after the other.
  pub data Run : Db → Db → Type 0 where
    rest : {db : Db} → Run db db
    then_step : {db between db' : Db} → Run db between → Step between db' → Run db db'

  -- What every step keeps, every run keeps.
  pub Run_induction :
      (P : Db → Type 0)
      → ((db db' : Db) → Step db db' → P db → P db')
      → {db db' : Db} → Run db db'
      → P db
      → P db'
  Run_induction P keeps rest p = p
  Run_induction P keeps (then_step {between} {db'} run step) p =
      keeps between db' step (Run_induction P keeps run p)
