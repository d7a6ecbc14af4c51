-- ===== src/Client.antt =====
-- catalog/models.rs: what a client holds of a table, a `TableHandle`, and the `MutationBuilder` that
-- it opens. Both work on any implementation of the trait `Catalog`.
pub mod Builder
pub mod Handle
pub mod Chain
pub mod Conflict
use planar.Spec.{TxnId, TableIdent, Mutation}
use planar.Backends.{Catalog}

pub record MutationBuilder (State Value Map : Type 0) : Type 0 where
  pub catalog : Catalog State Value Map
  pub ident : TableIdent
  pub base_transaction_id : TxnId
  pub mutation : Mutation Value Map

pub record TableHandle (State Value Map : Type 0) : Type 0 where
  pub catalog : Catalog State Value Map
  pub ident : TableIdent
