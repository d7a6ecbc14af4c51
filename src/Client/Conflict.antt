-- ===== src/Client/Conflict.antt =====
-- Two clients that write to one table, over any catalog that keeps its promise.
use planar.Base.{◌≡◌, ◌≢◌, refl, ap, sym, ◌∙◌, none, List, map}
use planar.Base.Except.{ok, ok-injective, >>=-eq-ok}
use planar.Spec.{TxnId}
use planar.Catalog.{Env}
use planar.Backends.{CommitResult, IsOptimistic}
use planar.Client.{MutationBuilder, TableHandle}
use planar.Client.Builder
use planar.Client.Handle
use planar.Client.Chain.{Call, operation, chain, chain_lem}

module _ {State Value Map : Type 0} (handle : TableHandle State Value Map) where
  -- A builder that was opened on the current transaction is pinned to it.
  write_lem :
      (state : State) (builder : MutationBuilder State Value Map)
      → Handle.write handle none state ≡ ok builder
      → (builder ≡ Builder.new handle.catalog handle.ident builder.base_transaction_id)
        × (handle.catalog.current_transaction_id handle.ident state
            ≡ ok builder.base_transaction_id)
  unfolding Handle.write Builder.new
  write_lem state builder h =
      let (id, current, e) =
        >>=-eq-ok (handle.catalog.current_transaction_id handle.ident state) _ h in
      let same = ok-injective e in
      let is_base : id ≡ builder.base_transaction_id =
        ap (λ (b : MutationBuilder State Value Map). b.base_transaction_id) same in
      (
        sym same ∙ ap (Builder.new handle.catalog handle.ident) is_base,
        current ∙ ap (λ (t : TxnId). ok t) is_base,
      )

  -- What a chain on such a builder sends.
  chain-commit :
      (calls : List (Call Value Map)) (builder : MutationBuilder State Value Map) (env : Env)
      (state : State)
      → builder ≡ Builder.new handle.catalog handle.ident builder.base_transaction_id
      → Builder.commit env (chain calls builder) state
        ≡ handle.catalog.commit env handle.ident builder.base_transaction_id
            (record { operations = map operation calls })
            state
  unfolding Builder.commit Builder.new
  chain-commit calls builder env state is =
      ap (λ (b : MutationBuilder State Value Map). Builder.commit env (chain calls b) state) is
      ∙ ap (λ (b : MutationBuilder State Value Map). Builder.commit env b state)
          (chain_lem calls (Builder.new handle.catalog handle.ident builder.base_transaction_id))

  -- No update is lost: let two clients open builders on the current transaction of a table, and
  -- chain any methods. Over any catalog that keeps its promise, once the first one has committed,
  -- with a transaction that is not the base itself, the second one's commit fails, whatever it
  -- draws; and a builder that is opened afterwards is pinned to the first one's transaction.
  pub commit-write :
      IsOptimistic handle.catalog
      → (first second : MutationBuilder State Value Map) (calls calls' : List (Call Value Map))
        (env env' : Env) (state state' : State) (result : CommitResult Value Map)
        (result' : State × CommitResult Value Map)
      → Handle.write handle none state ≡ ok first
      → Handle.write handle none state ≡ ok second
      → Builder.commit env (chain calls first) state ≡ ok (state', result)
      → result.transaction_id ≢ first.base_transaction_id
      → (Builder.commit env' (chain calls' second) state' ≢ ok result')
        × (Handle.write handle none state'
            ≡ ok (Builder.new handle.catalog handle.ident result.transaction_id))
  unfolding Handle.write
  commit-write keeps first second calls calls' env env' state state' result result' opened₁ opened₂
        ran new =
      let (is₁, current₁) = write_lem state first opened₁ in
      let (is₂, current₂) = write_lem state second opened₂ in
      let (before, after) =
        keeps.commit-head env handle.ident first.base_transaction_id _ state state' result
          (sym (chain-commit calls first env state is₁) ∙ ran) in
      (
        λ again.
            let (before', after') =
              keeps.commit-head env' handle.ident second.base_transaction_id _ state' result'.0
                result'.1 (sym (chain-commit calls' second env' state' is₂) ∙ again) in
            let now : result.transaction_id ≡ second.base_transaction_id =
              ok-injective (sym after ∙ before') in
            let then : second.base_transaction_id ≡ first.base_transaction_id =
              ok-injective (sym current₂ ∙ current₁) in
            new (now ∙ then),
        rw after refl,
      )
