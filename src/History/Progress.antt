-- ===== src/History/Progress.antt =====
-- catalog/mod.rs: a `commit` on the head of its table, in a reachable database.
use planar.Base.{
  ◌≡◌, refl, sym, ◌∙◌, ◌<◌, true, false, some, List, [], ◌∷◌, ◌++◌, any, All, arith, ==_refl, ltb,
  leb, length, some-injective,
}
use mathlib.Core.Path.{subst}
use planar.Base.Eq.{nat_eq}
use planar.Base.Int.{as_u32}
use planar.Base.Except.{ok, ◌>>=◌}
use planar.Base.Search.{any-weaker}
use planar.Json.{parse_table_properties}
use planar.Limits.{max_operations_per_mutation}
use planar.Spec.{Uuid, TxnId, TableIdent, Mutation, validate_mutation}
use planar.Db.{
  Db, TableRow, TransactionRow, find_table, has_ident, table_with, transaction_with, insert_rows,
  insert_transaction, transaction_clash,
}
use planar.Db.Fresh.{find-any-other}
use planar.Catalog.{Libraries, SqlCatalog, Env, ensure_writer_protocol_compatible}
use planar.Catalog.Commit.{apply_ops, commit_transaction, finish, commit_row, commit}
use planar.Catalog.Commit.Effect.{start_work}
use planar.History.{Later, no_rows, Run}
use planar.History.WellFormed.{transaction_of, Owned}
use planar.History.Reachable.{found_Headed}

-- No transaction clashes with one that is later than all.
unclashed_later :
    (new : TransactionRow) (rows : List TransactionRow)
    → All (λ t. t.transaction_id < new.transaction_id) rows
    → any (transaction_clash new) rows ≡ false
unclashed_later new [] h = refl
unclashed_later new (t ∷ rows) h = ground (arith, h.0, unclashed_later new rows h.1)

module _ {Value Map : Type 0} (lib : Libraries Value Map) (catalog : SqlCatalog) (env : Env) where
  insert_transaction_ok :
      (db : Db) (table_uuid : Uuid) (base : TxnId)
      → Later env db
      → Owned db.tables table_uuid
      → any (transaction_with base) db.transactions ≡ true
      → insert_transaction (commit_transaction lib catalog env table_uuid base) db
        ≡ ok (record db {
          transactions = db.transactions ++ commit_transaction lib catalog env table_uuid base ∷ [];
        })
  unfolding insert_transaction insert_rows
  insert_transaction_ok db table_uuid base later owned parent =
      rw
        (
          unclashed_later (commit_transaction lib catalog env table_uuid base) db.transactions
              later,
          owned,
          parent,
        )
        refl

  -- A commit on the head gets through: in a database that successful calls with growing transaction
  -- IDs have made from the empty one, take a commit whose base is the head of the table, with a
  -- later transaction ID, of a valid mutation within the limits, by a client whose writer version
  -- is allowed, on a table whose properties can be read. Then neither the check of the base nor any
  -- key or reference of the history stops it: its result is the result of its operations and of
  -- writing the properties, and it fails only if one of these does.
  pub Run-commit-head :
      (ident : TableIdent) (base : TxnId) (mutation : Mutation Value Map) (db : Db) (row : TableRow)
      (properties : Map)
      → Run lib no_rows db
      → Later env db
      → find_table ident db ≡ some row
      → row.current_transaction_id ≡ some base
      → ltb 0 (length mutation.operations) ≡ true
      → leb (as_u32 (length mutation.operations)) max_operations_per_mutation ≡ true
      → validate_mutation mutation ≡ ok tt
      → parse_table_properties lib.json row.properties ≡ ok properties
      → ensure_writer_protocol_compatible catalog ident row.min_writer_version ≡ ok tt
      → commit lib catalog env ident base mutation db ≡ (
          apply_ops lib catalog env row.table_uuid row.current_schema_uuid mutation.operations
            (start_work lib catalog env db row properties base)
          >>= finish lib catalog env row
          >>= λ db'. ok (db', env.transaction_id))
  unfolding commit commit_row find_table
  Run-commit-head ident base mutation db row properties run later found head some_op few valid
        parsed allowed =
      let h = found_Headed lib ident db row run found in
      let same : h.head ≡ base = some-injective (sym h.is_head ∙ head) in
      let owned =
        find-any-other (has_ident ident) (table_with row.table_uuid) db.tables found
          (==_refl row.table_uuid) in
      let present =
        any-weaker (transaction_of row.table_uuid h.head) (transaction_with h.head) db.transactions
          (λ t passes. ground arith) h.present in
      let parent =
        subst (λ (t : TxnId). any (transaction_with t) db.transactions ≡ true) same present in
      let inserted = insert_transaction_ok db row.table_uuid base later owned parent in
      rw (some_op, few, valid, found, parsed, allowed, head, ==_refl base, inserted) refl
