-- ===== src/Backends.antt =====
-- catalog/mod.rs: the trait `Catalog`, and what its comments promise of an implementation. Its
-- implementation for SQLite is the module Sqlite, and calls of the one for PostgreSQL are in Postgres.
pub mod Placeholders
pub mod Parameters
pub mod Sqlite
pub mod Postgres
pub mod Optimistic
use planar.Base.{String, Option, List, ◌≡◌, ◌≢◌}
use planar.Base.Except.{ok}
use planar.Error.{Result}
use planar.Spec.{TxnId, TableIdent, SchemaSpec, Mutation}
use planar.Catalog.{Env}
use planar.Catalog.Read.{TableView}
use planar.Delta.{TableDelta, TxnEvent}
use planar.Events.{TxnRangeCursor}

-- `CommitResult`
pub record CommitResult (Value Map : Type 0) : Type 0 where
  pub transaction_id : TxnId
  pub table_view : Option (TableView Value Map)

-- The trait. An operation that writes returns the new state beside its result, and draws from the
-- environment; a handle that is returned is the identifier of its table, since it is attached to
-- the catalog that is called.
pub record Catalog (State Value Map : Type 0) : Type 0 where
  pub create_table :
      Env → TableIdent → String → SchemaSpec → Option Map → State → Result (State × TableIdent)
  pub load_table : TableIdent → State → Result (Option TableIdent)
  pub list_tables : Option String → State → Result (List TableIdent)
  pub drop_table : TableIdent → State → Result State
  pub current_transaction_id : TableIdent → State → Result TxnId
  pub list_transaction_events : TableIdent → TxnRangeCursor → State → Result (List (TxnEvent Value))
  pub read_table : TableIdent → Option TxnId → State → Result (TableView Value Map)
  pub diff_table : TableIdent → TxnId → TxnId → State → Result (TableDelta Value Map)
  pub commit :
      Env
      → TableIdent
      → TxnId
      → Mutation Value Map
      → State
      → Result (State × CommitResult Value Map)

-- Optimistic concurrency control: a commit succeeds only on the current transaction of its table,
-- and makes the transaction that it returns the current one.
pub record IsOptimistic {State Value Map : Type 0} (catalog : Catalog State Value Map)
    : Type 0 where
  pub commit-head :
      (env : Env) (ident : TableIdent) (base : TxnId) (mutation : Mutation Value Map)
      (state state' : State) (result : CommitResult Value Map)
      → catalog.commit env ident base mutation state ≡ ok (state', result)
      → (catalog.current_transaction_id ident state ≡ ok base)
        × (catalog.current_transaction_id ident state' ≡ ok result.transaction_id)
