-- ===== src/Client/Handle.antt =====
-- catalog/models.rs: `TableHandle`.
use planar.Base.{Option, none, some, List}
use planar.Base.Except.{ok, ◌>>=◌}
use planar.Error.{Result}
use planar.Spec.{TxnId}
use planar.Catalog.Read.{TableView}
use planar.Delta.{TxnEvent, TableDelta}
use planar.Client.{TableHandle, MutationBuilder}
use planar.Client.Builder

module _ {State Value Map : Type 0} (self : TableHandle State Value Map) where
  unfoldable pub read : State → Result (TableView Value Map)
  read state = self.catalog.read_table self.ident none state

  unfoldable pub read_at : TxnId → State → Result (TableView Value Map)
  read_at transaction_id state = self.catalog.read_table self.ident (some transaction_id) state

  unfoldable pub current_transaction_id : State → Result TxnId
  current_transaction_id state = self.catalog.current_transaction_id self.ident state

  unfoldable pub list_transaction_events :
      Option TxnId → TxnId → State → Result (List (TxnEvent Value))
  list_transaction_events from_exclusive to_inclusive state =
      self.catalog.list_transaction_events self.ident
        (record { from_exclusive = from_exclusive; to_inclusive = to_inclusive }) state

  unfoldable pub diff : TxnId → TxnId → State → Result (TableDelta Value Map)
  diff from_transaction_id to_transaction_id state =
      self.catalog.diff_table self.ident from_transaction_id to_transaction_id state

  base_of : Option TxnId → State → Result TxnId
  base_of (some id) state = ok id
  base_of none state = self.catalog.current_transaction_id self.ident state

  -- A builder that is pinned to a base transaction.
  unfoldable pub write : Option TxnId → State → Result (MutationBuilder State Value Map)
  unfolding base_of Builder.new
  write base_transaction_id state = do
    txn_id ← base_of base_transaction_id state
    ok (Builder.new self.catalog self.ident txn_id)
