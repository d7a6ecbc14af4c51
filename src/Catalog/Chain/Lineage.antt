-- ===== src/Catalog/Chain/Lineage.antt =====
-- What the loops over the parents find, against the parent relation.
use planar.Base.{
  ℕ, zero, suc, ◌+◌, ◌≤◌, ◌≡◌, refl, ap, ◌⊎◌, inl, inr, Bool, true, false, not, Option, none, some,
  List, [], ◌∷◌, arith, ltb, length, ◌==◌, Bool-cases, ==_iff,
}
use planar.Base.Eq.{contains, nat_eq}
use planar.Base.Except.{ok, guard-eq-ok, >>=-eq-ok, ok_or-eq-ok}
use planar.Error.{Result, invalid_argument}
use planar.Limits.{max_transactions_per_scan}
use planar.Spec.{Uuid, TxnId}
use planar.Db.{Db, TransactionRow}
use mathlib.Core.Path.{subst}
use planar.Catalog.Chain.{
  find_transaction, follow, extend, chain_cycle, walk_history, is_ancestor, collect, txn_ids_desc,
}

module _ (db : Db) (table_uuid : Uuid) where
  -- The transaction is one of the table, with the given parent.
  pub record HasParent (id : TxnId) (parent : Option TxnId) : Type 0 where
    pub row : TransactionRow
    pub found : find_transaction db table_uuid id ≡ some row
    pub parent_is : row.parent_transaction_id ≡ parent

  -- `target` is `id` or is reached from it by parents.
  pub data Ancestor (target : TxnId) : TxnId → Type 0 where
    self : Ancestor target target
    step :
        {id parent : TxnId}
        → HasParent id (some parent)
        → Ancestor target parent
        → Ancestor target id

  -- The IDs from the first one down the parents, to the one whose parent is `stop`.
  pub data Lineage (stop : Option TxnId) : TxnId → List TxnId → Type 0 where
    last : {id : TxnId} → HasParent id stop → Lineage stop id (id ∷ [])
    next :
        {id parent : TxnId} {ids : List TxnId}
        → HasParent id (some parent)
        → Lineage stop parent ids
        → Lineage stop id (id ∷ ids)

  follow-true :
      (o : Option TxnId) (onward : TxnId → Result Bool)
      → follow o onward ≡ ok true
      → (parent : TxnId) × (o ≡ some parent) × (onward parent ≡ ok true)
  unfolding follow
  follow-true none onward h = absurd (ground arith)
  follow-true (some parent) onward h = (parent, refl, h)

  walk_history-sound :
      (fuel : ℕ) (target : TxnId) (visited : List TxnId) (cursor : TxnId)
      → walk_history chain_cycle fuel db table_uuid target visited cursor ≡ ok true
      → Ancestor target cursor
  unfolding walk_history
  walk_history-sound zero target visited cursor h = cc
  walk_history-sound (suc fuel) target visited cursor h =
      let (fresh, h₁) = guard-eq-ok (not (contains visited cursor)) _ _ h in
      elim (Bool-cases (cursor == target)) [
        | inl here ↦ rw ((==_iff cursor target).0 here) self
        | inr further ↦
            let h₂ = rw further at h₁ in
            let (row, found, h₃) =
              ok_or-eq-ok (find_transaction db table_uuid cursor)
                (invalid_argument "table transaction chain is broken") _ h₂ in
            let (parent, is, h₄) =
              follow-true row.parent_transaction_id
                (λ p. walk_history chain_cycle fuel db table_uuid target (cursor ∷ visited) p) h₃ in
            step (record { row = row; found = found; parent_is = is })
              (walk_history-sound fuel target (cursor ∷ visited) parent h₄)
      ]

  -- What `extend` returns: the boundary is at the parent, or the rest was collected, or the chain
  -- ended.
  extend-cases :
      (from : Option TxnId) (cursor : TxnId) (o : Option TxnId)
      (onward : TxnId → Result (List TxnId × Bool)) {ids : List TxnId} {reached : Bool}
      → extend from cursor o onward ≡ ok (ids, reached)
      → ((o ≡ none) × (ids ≡ cursor ∷ []) × (reached ≡ false))
        ⊎ ((o ≡ from) × (ids ≡ cursor ∷ []) × (reached ≡ true))
        ⊎ ((parent : TxnId) × (rest : List TxnId) × (o ≡ some parent)
            × (onward parent ≡ ok (rest, reached))
            × (ids ≡ cursor ∷ rest))
  unfolding extend
  extend-cases from cursor none onward h = inl (refl, ground arith, ground arith)
  extend-cases none cursor (some parent) onward h =
      let (rest, ran, e) = >>=-eq-ok (onward parent) _ h in
      inr (inr (parent, rest.0, refl, ground arith, ground arith))
  extend-cases (some f) cursor (some parent) onward h = elim (Bool-cases (parent == f)) [
    | inl here ↦ inr (inl (ap some ((==_iff parent f).0 here), ground arith, ground arith))
    | inr further ↦
        let (rest, ran, e) = >>=-eq-ok (onward parent) _ (rw further at h) in
        inr (inr (parent, rest.0, refl, ground arith, ground arith))
  ]

  -- The range stops at the boundary if that was reached, and at the start of history if not.
  abbrev stop_of : Option TxnId → Bool → Option TxnId
  stop_of from true = from
  stop_of from false = none

  collect-Lineage :
      (fuel : ℕ) (from : Option TxnId) (visited : List TxnId) (count : ℕ) (cursor : TxnId)
      {ids : List TxnId} {reached : Bool}
      → collect fuel db table_uuid from visited count cursor ≡ ok (ids, reached)
      → Lineage (stop_of from reached) cursor ids × (count + length ids ≤ max_transactions_per_scan)
  unfolding collect
  collect-Lineage zero from visited count cursor h = cc
  collect-Lineage (suc fuel) from visited count cursor {ids} {reached} h =
      let (fresh, h₁) = guard-eq-ok (not (contains visited cursor)) _ _ h in
      let (row, found, h₂) =
        ok_or-eq-ok (find_transaction db table_uuid cursor)
          (invalid_argument "requested transaction does not exist for table") _ h₁ in
      let (few, h₃) = guard-eq-ok (not (ltb max_transactions_per_scan (suc count))) _ _ h₂ in
      elim (extend-cases from cursor row.parent_transaction_id
        (λ p. collect fuel db table_uuid from (cursor ∷ visited) (suc count) p) h₃) [
          | inl (e, i, r) ↦
              rw (i, r) (last (record { row = row; found = found; parent_is = e }), ground arith)
          | inr (inl (e, i, r)) ↦
              rw (i, r) (last (record { row = row; found = found; parent_is = e }), ground arith)
          | inr (inr (parent, rest, e, ran, i)) ↦
              let (line, small) =
                collect-Lineage fuel from (cursor ∷ visited) (suc count) parent ran in
              rw i (
                next (record { row = row; found = found; parent_is = e }) line,
                omega (arith, small),
              )
        ]

  -- A successful history check finds the requested transaction among the ancestors of the current
  -- one.
  pub is_ancestor-sound :
      (target current : TxnId)
      → is_ancestor db table_uuid target current ≡ ok true
      → Ancestor target current
  unfolding is_ancestor
  is_ancestor-sound target current h =
      walk_history-sound (suc (length db.transactions)) target [] current h

  -- A successful range scan returns exactly the line of parents from the upper end, which is
  -- included, down to the lower end, which is not, or to the first transaction of the table if
  -- there is no lower end; and it has at most as many transactions as the scan limit.
  pub txn_ids_desc-Lineage :
      (from : Option TxnId) (to : TxnId) {ids : List TxnId}
      → txn_ids_desc db table_uuid from to ≡ ok ids
      → Lineage from to ids × (length ids ≤ max_transactions_per_scan)
  unfolding txn_ids_desc
  txn_ids_desc-Lineage none to {ids} h =
      let (r, ran, h₁) =
        >>=-eq-ok (collect (suc max_transactions_per_scan) db table_uuid none [] 0 to) _ h in
      let e : r.0 ≡ ids = ground arith in
      let (line, small) =
        collect-Lineage (suc max_transactions_per_scan) none [] 0 to {ids = r.0} {reached = r.1}
          ran in
      rw (← e) (subst (λ s. Lineage s to r.0) (none-stop r.1) line, omega (arith, small))
    where
      none-stop : (b : Bool) → stop_of none b ≡ none
      none-stop true = refl
      none-stop false = refl
  txn_ids_desc-Lineage (some f) to {ids} h =
      let (r, ran, h₁) =
        >>=-eq-ok (collect (suc max_transactions_per_scan) db table_uuid (some f) [] 0 to) _ h in
      let (reached, h₂) = guard-eq-ok r.1 _ _ h₁ in
      let e : r.0 ≡ ids = ground arith in
      let (line, small) =
        collect-Lineage (suc max_transactions_per_scan) (some f) [] 0 to {ids = r.0} {reached = r.1}
          ran in
      rw (← e) (subst (λ b. Lineage (stop_of (some f) b) to r.0) reached line, omega (arith, small))
