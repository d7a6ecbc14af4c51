-- ===== src/Client/Builder.antt =====
-- catalog/models.rs: `MutationBuilder`.
use planar.Base.{String, List, [], ◌∷◌, ◌++◌}
use planar.Error.{Result}
use planar.Spec.{Uuid, TxnId, TableIdent, SchemaSpec, FileSpec, MutationOp}
use planar.Catalog.{Env}
use planar.Backends.{Catalog, CommitResult}
use planar.Client.{MutationBuilder}

module _ {State Value Map : Type 0} where
  unfoldable pub new :
      Catalog State Value Map → TableIdent → TxnId → MutationBuilder State Value Map
  new catalog ident base_transaction_id = record {
    catalog = catalog;
    ident = ident;
    base_transaction_id = base_transaction_id;
    mutation = record { operations = [] };
  }

  -- `self.mutation.operations.push(op)`
  unfoldable pub push :
      MutationOp Value Map → MutationBuilder State Value Map → MutationBuilder State Value Map
  push op self = record self {
    mutation = record { operations = self.mutation.operations ++ op ∷ [] };
  }

  unfoldable pub append_files :
      MutationBuilder State Value Map → List (FileSpec Value) → MutationBuilder State Value Map
  unfolding push
  append_files self files = push (MutationOp.append_files files) self

  unfoldable pub append_file :
      MutationBuilder State Value Map → FileSpec Value → MutationBuilder State Value Map
  unfolding push
  append_file self file = push (MutationOp.append_files (file ∷ [])) self

  unfoldable pub delete_files :
      MutationBuilder State Value Map → List Uuid → MutationBuilder State Value Map
  unfolding push
  delete_files self file_uuids = push (MutationOp.delete_files file_uuids) self

  unfoldable pub update_schema :
      MutationBuilder State Value Map → SchemaSpec → MutationBuilder State Value Map
  unfolding push
  update_schema self schema = push (MutationOp.update_schema schema) self

  unfoldable pub set_properties :
      MutationBuilder State Value Map → Map → MutationBuilder State Value Map
  unfolding push
  set_properties self properties = push (MutationOp.set_properties properties) self

  unfoldable pub remove_properties :
      MutationBuilder State Value Map → List String → MutationBuilder State Value Map
  unfolding push
  remove_properties self keys = push (MutationOp.remove_properties keys) self

  -- `MutationBuilder::commit`
  unfoldable pub commit :
      Env → MutationBuilder State Value Map → State → Result (State × CommitResult Value Map)
  commit env self state =
      self.catalog.commit env self.ident self.base_transaction_id self.mutation state
