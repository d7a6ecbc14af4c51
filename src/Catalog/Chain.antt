-- ===== src/Catalog/Chain.antt =====
-- catalog/mod.rs: the two loops that follow the parents of transactions, in `read_table` and in
-- `list_transaction_events`. `visited` is the source's hash set.
pub mod Lineage
pub mod Fuel
use planar.Base.{
  ℕ, zero, suc, Bool, true, false, not, ◌&&◌, Option, none, some, List, [], ◌∷◌, ltb, length, ◌==◌,
  if◌then◌else◌,
}
use planar.Base.Eq.{contains, nat_eq}
use planar.Base.Except.{ok, err, guard, ok_or, ◌>>=◌, ◌>>◌}
use planar.Error.{Result, invalid_argument, limit_exceeded}
use planar.Limits.{max_transactions_per_scan}
use planar.Spec.{Uuid, TxnId}
use planar.Db.{Db, TransactionRow, find}

-- SELECT parent_transaction_id FROM transactions WHERE table_uuid = ? AND transaction_id = ?
unfoldable pub find_transaction : Db → Uuid → TxnId → Option TransactionRow
unfolding find
find_transaction db table_uuid id =
    find (λ t. t.table_uuid == table_uuid && t.transaction_id == id) db.transactions

-- The end of a round of `read_table`: on to the parent, or out of the loop.
pub follow : Option TxnId → (TxnId → Result Bool) → Result Bool
follow none onward = ok false
follow (some parent) onward = onward parent

abbrev pub chain_cycle : Result Bool
chain_cycle = err (invalid_argument "transaction parent chain contains a cycle")

-- The loop of `read_table`: is `target` among the ancestors of the cursor? `spent` is the result of
-- the model where the fuel runs out; the source has no such case.
unfoldable pub walk_history : Result Bool → ℕ → Db → Uuid → TxnId → List TxnId → TxnId → Result Bool
unfolding follow
walk_history spent zero db table_uuid target visited cursor = spent
walk_history spent (suc fuel) db table_uuid target visited cursor =
    let onward =
      λ (parent : TxnId). walk_history spent fuel db table_uuid target (cursor ∷ visited) parent in
    do
      guard (not (contains visited cursor))
          (invalid_argument "transaction parent chain contains a cycle")
      if cursor == target then ok true else do
        row ←
            ok_or (find_transaction db table_uuid cursor)
              (invalid_argument "table transaction chain is broken")
        follow row.parent_transaction_id onward

-- Every round but the last visits another transaction of the table.
unfoldable pub is_ancestor : Db → Uuid → TxnId → TxnId → Result Bool
is_ancestor db table_uuid target current =
    walk_history chain_cycle (suc (length db.transactions)) db table_uuid target [] current

is_stop : Option TxnId → TxnId → Bool
is_stop none parent = false
is_stop (some from) parent = parent == from

-- The end of a round of `list_transaction_events`: the cursor goes before the rest of the range.
extend :
    Option TxnId
    → TxnId
    → Option TxnId
    → (TxnId → Result (List TxnId × Bool))
    → Result (List TxnId × Bool)
unfolding is_stop
extend from cursor none onward = ok (cursor ∷ [], false)
extend from cursor (some parent) onward =
    if is_stop from parent
    then ok (cursor ∷ [], true)
    else do (ids, reached) ← onward parent; ok (cursor ∷ ids, reached)

-- The loop of `list_transaction_events`: the IDs from the cursor down to the boundary, and whether
-- the boundary was reached. `count` is the length of `txn_ids_desc`.
unfoldable pub collect :
    ℕ → Db → Uuid → Option TxnId → List TxnId → ℕ → TxnId → Result (List TxnId × Bool)
unfolding extend
collect zero db table_uuid from visited count cursor =
    err (limit_exceeded "transaction scan exceeds limit of {}")
collect (suc fuel) db table_uuid from visited count cursor =
    let onward =
      λ (parent : TxnId). collect fuel db table_uuid from (cursor ∷ visited) (suc count) parent in
    do
      guard (not (contains visited cursor))
          (invalid_argument "transaction parent chain contains a cycle")
      row ←
          ok_or (find_transaction db table_uuid cursor)
            (invalid_argument "requested transaction does not exist for table")
      guard (not (ltb max_transactions_per_scan (suc count)))
          (limit_exceeded "transaction scan exceeds limit of {}")
      extend from cursor row.parent_transaction_id onward

abbrev no_boundary : Option TxnId → Bool
no_boundary none = true
no_boundary (some from) = false

-- The IDs of the range, latest first. The scan limit ends the loop, so it bounds the rounds.
unfoldable pub txn_ids_desc : Db → Uuid → Option TxnId → TxnId → Result (List TxnId)
txn_ids_desc db table_uuid from to = do
  (ids, reached) ← collect (suc max_transactions_per_scan) db table_uuid from [] 0 to
  guard (if no_boundary from then true else reached)
      (invalid_argument "from transaction is not an ancestor of to transaction")
  ok ids
