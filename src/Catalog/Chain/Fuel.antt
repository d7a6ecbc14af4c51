-- ===== src/Catalog/Chain/Fuel.antt =====
-- The history loop has enough fuel: it visits no transaction twice, and each is a row.
use planar.Base.{
  ℕ, zero, suc, ◌+◌, ◌<◌, ◌≡◌, Bool, true, ◌&&◌, inl, inr, some, List, [], ◌∷◌, map, arith, All,
  length, length-map, ◌==◌, Bool-cases, Option-cases,
}
use planar.Base.Eq.{contains, nat_eq, Distinct, contains→Fresh}
use planar.Base.Pigeonhole.{pigeonhole}
use planar.Error.{Result}
use planar.Spec.{Uuid, TxnId}
use planar.Db.{Db, TransactionRow, find}
use planar.Catalog.Chain.{find_transaction, chain_cycle, walk_history, is_ancestor, follow}

module _ (db : Db) (table_uuid : Uuid) where
  abbrev pub ids : List TxnId
  ids = map (λ t. t.transaction_id) db.transactions

  pub found-contains :
      (id : TxnId) (rows : List TransactionRow) {row : TransactionRow}
      → find (λ t. t.table_uuid == table_uuid && t.transaction_id == id) rows ≡ some row
      → contains (map (λ t. t.transaction_id) rows) id ≡ true
  unfolding find contains
  found-contains id [] h = absurd (ground arith)
  found-contains id (t ∷ rows) {row} h = ground (arith, found-contains id rows {row = row})

  -- With fuel for every transaction that was not visited, and one round more, there is one result,
  -- whatever stands for spent fuel.
  enough :
      (spent spent' : Result Bool) (f g : ℕ) (target : TxnId) (visited : List TxnId)
      (cursor : TxnId)
      → Distinct visited
      → All (λ v. contains ids v ≡ true) visited
      → length db.transactions < f + length visited
      → length db.transactions < g + length visited
      → walk_history spent f db table_uuid target visited cursor
        ≡ walk_history spent' g db table_uuid target visited cursor
  unfolding walk_history
  enough spent spent' zero g target visited cursor d h p q = absurd (
      omega (
        arith,
        pigeonhole visited ids d h,
        length-map {0, 0} (λ (t : TransactionRow). t.transaction_id) db.transactions,
      ))
  enough spent spent' (suc f) zero target visited cursor d h p q = absurd (
      omega (
        arith,
        pigeonhole visited ids d h,
        length-map {0, 0} (λ (t : TransactionRow). t.transaction_id) db.transactions,
      ))
  enough spent spent' (suc f) (suc g) target visited cursor d h p q =
      elim (Bool-cases (contains visited cursor)) [
        | inl again ↦ rw again
        | inr new ↦ elim (Option-cases (find_transaction db table_uuid cursor)) [
          | inl missing ↦ rw (new, missing)
          | inr (row, found) ↦ elim (Option-cases row.parent_transaction_id) [
            | inl first ↦ rw (new, found, first)
            | inr (parent, is) ↦ rw (
              new,
              found,
              is,
              follow,
              enough spent spent' f g target (cursor ∷ visited) parent
                  (contains→Fresh visited cursor new, d)
                  (
                    found-contains cursor db.transactions {row = row}
                        (unfold find_transaction in found),
                    h,
                  )
                  (omega arith) (omega arith),
            )
          ]
        ]
      ]

  -- The history check never runs out of fuel, on any database, whether its chain of parents is
  -- broken, has a cycle or is sound: whatever the loop would return where its fuel is spent, and
  -- however much fuel more it gets, the result is that of the history check.
  pub is_ancestor-fuel :
      (spent : Result Bool) (more : ℕ) (target current : TxnId)
      → walk_history spent (more + suc (length db.transactions)) db table_uuid target [] current
        ≡ is_ancestor db table_uuid target current
  unfolding is_ancestor
  is_ancestor-fuel spent more target current =
      enough spent chain_cycle (more + suc (length db.transactions)) (suc (length db.transactions))
        target [] current tt tt (omega arith) (omega arith)
