-- ===== src/Client/Chain.antt =====
-- The chained calls of a builder.
use planar.Base.{
  String, ◌≡◌, refl, ap, sym, ◌∙◌, some, List, [], ◌∷◌, ◌++◌, map, append_assoc, append-nil,
}
use planar.Base.Except.{◌>>=◌}
use planar.Spec.{
  Uuid, TxnId, SchemaSpec, FileSpec, MutationOp, append_files, delete_files, update_schema,
  set_properties, remove_properties,
}
use planar.Catalog.{Env}
use planar.Client.{MutationBuilder, TableHandle}
use planar.Client.Builder
use planar.Client.Handle

-- The calls that a client chains on a builder.
pub data Call (Value Map : Type 0) : Type 0 where
  appends : List (FileSpec Value) → Call Value Map
  append_one : FileSpec Value → Call Value Map
  deletes : List Uuid → Call Value Map
  updates : SchemaSpec → Call Value Map
  sets : Map → Call Value Map
  removes : List String → Call Value Map

module _ {Value Map : Type 0} where
  -- The operation that a call stands for.
  pub operation : Call Value Map → MutationOp Value Map
  operation (appends files) = append_files files
  operation (append_one file) = append_files (file ∷ [])
  operation (deletes uuids) = delete_files uuids
  operation (updates schema) = update_schema schema
  operation (sets properties) = set_properties properties
  operation (removes keys) = remove_properties keys

  module _ {State : Type 0} where
    unfoldable pub call :
        Call Value Map → MutationBuilder State Value Map → MutationBuilder State Value Map
    call (appends files) builder = Builder.append_files builder files
    call (append_one file) builder = Builder.append_file builder file
    call (deletes uuids) builder = Builder.delete_files builder uuids
    call (updates schema) builder = Builder.update_schema builder schema
    call (sets properties) builder = Builder.set_properties builder properties
    call (removes keys) builder = Builder.remove_properties builder keys

    unfoldable pub chain :
        List (Call Value Map) → MutationBuilder State Value Map → MutationBuilder State Value Map
    unfolding call
    chain [] builder = builder
    chain (c ∷ calls) builder = chain calls (call c builder)

    call-push :
        (c : Call Value Map) (builder : MutationBuilder State Value Map)
        → call c builder ≡ Builder.push (operation c) builder
    unfolding call operation Builder.append_files Builder.append_file Builder.delete_files
        Builder.update_schema Builder.set_properties Builder.remove_properties
    call-push (appends files) builder = refl
    call-push (append_one file) builder = refl
    call-push (deletes uuids) builder = refl
    call-push (updates schema) builder = refl
    call-push (sets properties) builder = refl
    call-push (removes keys) builder = refl

    -- A chain adds the operations of its calls, in order, and leaves the rest of the builder.
    pub chain_lem :
        (calls : List (Call Value Map)) (builder : MutationBuilder State Value Map)
        → chain calls builder ≡ record builder {
          mutation = record { operations = builder.mutation.operations ++ map operation calls };
        }
    unfolding chain Builder.push
    chain_lem [] builder =
        ap
          (λ (ops : List (MutationOp Value Map)). record builder {
            mutation = record { operations = ops };
          })
          (sym (append-nil builder.mutation.operations))
    chain_lem (c ∷ calls) builder =
        ap (chain calls) (call-push c builder)
        ∙ chain_lem calls (Builder.push (operation c) builder)
        ∙ ap
            (λ (ops : List (MutationOp Value Map)). record builder {
              mutation = record { operations = ops };
            })
            (append_assoc builder.mutation.operations (operation c ∷ []) (map operation calls))

    -- What a builder commits: a builder that a handle opens on a base sends, whatever methods are
    -- chained on it, one commit to the catalog, on the table of the handle and this base, with the
    -- operations of the methods in the order in which they were called.
    pub commit-chain :
        (handle : TableHandle State Value Map) (base : TxnId) (calls : List (Call Value Map))
        (env : Env) (state : State)
        → (Handle.write handle (some base) state >>= λ builder.
            Builder.commit env (chain calls builder) state)
          ≡ handle.catalog.commit env handle.ident base
              (record { operations = map operation calls })
              state
    unfolding Handle.write Builder.commit Builder.new
    commit-chain handle base calls env state =
        ap (λ (b : MutationBuilder State Value Map). Builder.commit env b state)
          (chain_lem calls (Builder.new handle.catalog handle.ident base))
