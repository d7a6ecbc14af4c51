-- ===== src/History/Ancestry.antt =====
-- The history check in a well-formed database: it always ends, and decides the ancestor relation.
use planar.Base.{
  ℕ, zero, suc, ◌+◌, ◌<◌, ◌≡◌, refl, ap, sym, ◌∙◌, Bool, true, false, inl, inr, none, some, List,
  [], ◌∷◌, any, arith, All, All-mono, length, length-map, ◌==◌, ==_refl, Bool-cases, Option-cases,
  some-injective, ◌↔◌,
}
use mathlib.Core.Path.{subst}
use planar.Base.Eq.{contains, nat_eq, Fresh, Distinct, Fresh→contains}
use planar.Base.Except.{ok}
use planar.Base.Pigeonhole.{pigeonhole}
use planar.Spec.{Uuid, TxnId}
use planar.Db.{Db, TransactionRow}
use planar.Db.Fresh.{any-find, find-All}
use planar.Catalog.Chain.{find_transaction, chain_cycle, walk_history, is_ancestor, follow}
use planar.Catalog.Chain.Fuel.{ids, found-contains}
use planar.Catalog.Chain.Lineage.{Ancestor, self, step, is_ancestor-sound}
use planar.History.WellFormed.{Rooted, transaction_of}

module _ (db : Db) (table_uuid : Uuid) (rooted : All (Rooted db.transactions) db.transactions) where
  -- The answer of the loop, which is true if the relation holds.
  record Answer (fuel : ℕ) (target : TxnId) (visited : List TxnId) (cursor : TxnId) : Type 0 where
    answer : Bool
    ran : walk_history chain_cycle fuel db table_uuid target visited cursor ≡ ok answer
    complete : Ancestor db table_uuid target cursor → answer ≡ true

  -- The row of a transaction of the table, whose parent is earlier.
  record Located (cursor : TxnId) : Type 0 where
    row : TransactionRow
    found : find_transaction db table_uuid cursor ≡ some row
    earlier :
        (parent : TxnId)
        → row.parent_transaction_id ≡ some parent
        → (parent < cursor) × (any (transaction_of table_uuid parent) db.transactions ≡ true)

  locate :
      (cursor : TxnId)
      → any (transaction_of table_uuid cursor) db.transactions ≡ true
      → Located cursor
  unfolding find_transaction
  locate cursor present =
      let (row, found) = any-find (transaction_of table_uuid cursor) db.transactions present in
      let (passes, root) =
        find-All (transaction_of table_uuid cursor) (Rooted db.transactions) db.transactions rooted
          found in
      let own : row.table_uuid ≡ table_uuid = ground (arith, passes) in
      let here : row.transaction_id ≡ cursor = ground (arith, passes) in
      record {
        row = row;
        found = found;
        earlier = λ parent is.
            let (before, there) = root parent is in
            (
              rw here at before,
              subst (λ (u : Uuid). any (transaction_of u parent) db.transactions ≡ true) own there,
            );
      }

  not_below :
      (target cursor : TxnId) (r : Located cursor)
      → (cursor == target) ≡ false
      → r.row.parent_transaction_id ≡ none
      → Ancestor db table_uuid target cursor
      → false ≡ true
  not_below target cursor r other first self = absurd (ground (arith, ==_refl target))
  not_below target cursor r other first (step h rest) =
      let same = some-injective (sym r.found ∙ h.found) in
      absurd (
        ground (
          arith,
          sym h.parent_is ∙ ap (λ (t : TransactionRow). t.parent_transaction_id) (sym same) ∙ first,
        ))

  below :
      (target cursor parent : TxnId) (r : Located cursor)
      → (cursor == target) ≡ false
      → r.row.parent_transaction_id ≡ some parent
      → Ancestor db table_uuid target cursor
      → Ancestor db table_uuid target parent
  below target cursor parent r other is self = absurd (ground (arith, ==_refl target))
  below target cursor parent r other is (step h rest) =
      let same = some-injective (sym r.found ∙ h.found) in
      let parents =
        some-injective (
          sym h.parent_is ∙ ap (λ (t : TransactionRow). t.parent_transaction_id) (sym same) ∙ is) in
      subst (Ancestor db table_uuid target) parents rest

  walk_history-Answer :
      (fuel : ℕ) (target : TxnId) (visited : List TxnId) (cursor : TxnId)
      → Distinct visited
      → All (λ v. contains (ids db table_uuid) v ≡ true) visited
      → All (λ v. cursor < v) visited
      → length db.transactions < fuel + length visited
      → any (transaction_of table_uuid cursor) db.transactions ≡ true
      → Answer fuel target visited cursor
  unfolding walk_history
  walk_history-Answer zero target visited cursor d h later fuel present = absurd (
      omega (
        arith,
        pigeonhole visited (ids db table_uuid) d h,
        length-map {0, 0} (λ (t : TransactionRow). t.transaction_id) db.transactions,
      ))
  walk_history-Answer (suc fuel) target visited cursor d h later enough present =
      let r = locate cursor present in
      let fresh : Fresh cursor visited =
        All-mono (λ v before e. absurd (omega (arith, before, e))) visited later in
      let new : contains visited cursor ≡ false = Fresh→contains visited cursor fresh in
      elim (Bool-cases (cursor == target)) [
        | inl here ↦ record { answer = true; ran = rw (new, here) refl; complete = λ a. refl }
        | inr other ↦ elim (Option-cases r.row.parent_transaction_id) [
          | inl first ↦ record {
            answer = false;
            ran = rw (new, other, r.found, first, follow) refl;
            complete = not_below target cursor r other first;
          }
          | inr (parent, is) ↦
              let (before, there) = r.earlier parent is in
              let rest =
                walk_history-Answer fuel target (cursor ∷ visited) parent (fresh, d)
                  (
                    found-contains db table_uuid cursor db.transactions {row = r.row}
                        (unfold find_transaction in r.found),
                    h,
                  )
                  (before, All-mono (λ v after. omega (arith, before, after)) visited later)
                  (omega arith) there in
              record {
                answer = rest.answer;
                ran = rw (new, other, r.found, is, follow) rest.ran;
                complete = λ a. rest.complete (below target cursor parent r other is a);
              }
        ]
      ]

  -- The check ends with an answer, and the answer is right.
  pub is_ancestor-decides :
      (target current : TxnId)
      → any (transaction_of table_uuid current) db.transactions ≡ true
      → (answer : Bool) × (is_ancestor db table_uuid target current ≡ ok answer)
        × ((answer ≡ true) ↔ Ancestor db table_uuid target current)
  unfolding is_ancestor
  is_ancestor-decides target current present =
      let a =
        walk_history-Answer (suc (length db.transactions)) target [] current tt tt tt (omega arith)
          present in
      (
        a.answer,
        a.ran,
        (
          λ yes.
              is_ancestor-sound db table_uuid target current
                (unfold is_ancestor in (a.ran ∙ ap ok yes)),
          a.complete,
        ),
      )
