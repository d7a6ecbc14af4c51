-- ===== src/History/Heads.antt =====
-- `commit` keeps the invariant.
use planar.Base.{
  String, ◌≡◌, ◌≢◌, ◌<◌, refl, ap, sym, ◌∙◌, true, false, inl, inr, Bool-cases, Option, some, List,
  [], ◌∷◌, ◌++◌, map, any, All-map, All-mono, arith, ◌==◌, ==_iff, ==_refl, some-injective,
}
use mathlib.Core.Path.{subst}
use planar.Base.Eq.{nat_eq}
use planar.Base.Except.{ok}
use planar.Base.Search.{any-last, All-any}
use planar.Spec.{Uuid, TxnId, TableIdent, Mutation}
use planar.Db.{
  Db, TableRow, TransactionRow, find_table, has_ident, table_with, set_head, set_properties_text,
  update_table,
}
use planar.Db.Fresh.{find-All, find-any-other}
use planar.Catalog.{Libraries, SqlCatalog, Env}
use planar.Catalog.Commit.{commit, commit_transaction, option_or}
use planar.Catalog.Commit.Conflict.{new_head_lem, commit-current_transaction_id}
use planar.Catalog.Commit.Effect.{Committed, commit_lem, new_head, start_work, apply_ops_induction}
use planar.Catalog.Commit.Refinement.{Settled, commit-Steps}
use planar.History.{Later}
use planar.History.WellFormed.{
  WellFormed, Headed, Rooted, Refers, Owned, transaction_of, Rooted-append, Owned-map,
}
use planar.History.Creates.{Headed-append}
use planar.History.Commits.{Keeps, Keeps-refl, Keeps-trans, apply_op-Keeps}

-- The head of a table is before the transaction of a call that is later than all.
pub Headed-earlier :
    (env : Env) (db : Db) (t : TableRow) (head : TxnId)
    → Later env db
    → Headed db.transactions db.files t
    → t.current_transaction_id ≡ some head
    → head < env.transaction_id
Headed-earlier env db t head later h is =
    let same : h.head ≡ head = some-injective (sym h.is_head ∙ is) in
    let (row, passes, before) =
      All-any (transaction_of t.table_uuid h.head) db.transactions later h.present in
    ground (arith, same, before)

module _ {Value Map : Type 0} (lib : Libraries Value Map) (catalog : SqlCatalog) (env : Env) where
  new_head_uuid :
      (text : String) (schema_uuid : Option Uuid) (uuid : Uuid) (t : TableRow)
      → (new_head lib catalog env text schema_uuid uuid t).table_uuid ≡ t.table_uuid
  unfolding set_head set_properties_text
  new_head_uuid text schema_uuid uuid t = ground arith

  new_head_other :
      (text : String) (schema_uuid : Option Uuid) (uuid : Uuid) (t : TableRow)
      → (t.table_uuid == uuid) ≡ false
      → new_head lib catalog env text schema_uuid uuid t ≡ t
  unfolding set_head set_properties_text
  new_head_other text schema_uuid uuid t h = ground arith

  -- The operations of the commit, all together.
  pub Committed-Keeps :
      (ident : TableIdent) (base : TxnId) (mutation : Mutation Value Map) (db db' : Db)
      (c : Committed lib catalog env ident base mutation db db')
      → Keeps lib catalog env c.row.table_uuid
          (start_work lib catalog env db c.row c.properties base)
          c.work
  Committed-Keeps ident base mutation db db' c =
      let uuid = c.row.table_uuid in
      apply_ops_induction lib catalog env (Keeps lib catalog env uuid) uuid
        c.row.current_schema_uuid (Keeps-refl lib catalog env uuid)
        (Keeps-trans lib catalog env uuid)
        (apply_op-Keeps lib catalog env uuid c.row.current_schema_uuid) mutation.operations
        (start_work lib catalog env db c.row c.properties base) c.work c.ran

  module _ (ident : TableIdent) (base : TxnId) (mutation : Mutation Value Map) (db db' : Db)
      (c : Committed lib catalog env ident base mutation db db') where
    abbrev uuid : Uuid
    uuid = c.row.table_uuid

    abbrev new : TransactionRow
    new = commit_transaction lib catalog env uuid base

    abbrev move : TableRow → TableRow
    move =
        new_head lib catalog env c.text
          (option_or lib catalog env c.work.new_schema_uuid c.row.current_schema_uuid) uuid

    kept : Keeps lib catalog env uuid (start_work lib catalog env db c.row c.properties base) c.work
    kept = Committed-Keeps ident base mutation db db' c

    pub owned : Owned db.tables uuid
    unfolding find_table
    owned = find-any-other (has_ident ident) (table_with uuid) db.tables c.found (==_refl uuid)

    Owned-after : (u : Uuid) → Owned db.tables u → Owned (map move db.tables) u
    Owned-after =
        Owned-map move
          (new_head_uuid c.text
            (option_or lib catalog env c.work.new_schema_uuid c.row.current_schema_uuid) uuid)
          db.tables

    -- The row of a table after the commit.
    moved-Headed :
        (t : TableRow)
        → Settled uuid env.transaction_id c.work.db.files
        → Headed db.transactions db.files t
        → Headed (db.transactions ++ new ∷ []) c.work.db.files (move t)
    moved-Headed t settled h =
        let schema_uuid =
          option_or lib catalog env c.work.new_schema_uuid c.row.current_schema_uuid in
        elim (Bool-cases (t.table_uuid == uuid)) [
          | inl own ↦
              let same = (==_iff t.table_uuid uuid).0 own in
              let headed : Headed (db.transactions ++ new ∷ []) c.work.db.files
                  (new_head lib catalog env c.text schema_uuid t.table_uuid t) =
                rw (new_head_lem lib catalog env c.text schema_uuid t) (record {
                  head = env.transaction_id;
                  is_head = refl;
                  present =
                      any-last (transaction_of t.table_uuid env.transaction_id) db.transactions new
                        (ground arith);
                  settled = rw same settled;
                }) in
              subst
                (λ (u : Uuid).
                  Headed (db.transactions ++ new ∷ []) c.work.db.files
                    (new_head lib catalog env c.text schema_uuid u t))
                same headed
          | inr other ↦
              let ne : t.table_uuid ≢ uuid =
                λ same. absurd (ground (arith, (==_iff t.table_uuid uuid).1 same)) in
              let before = Headed-append db.transactions db.files new t h in
              rw (new_head_other c.text schema_uuid uuid t other) (record {
                head = before.head;
                is_head = before.is_head;
                present = before.present;
                settled = kept.settled t.table_uuid before.head ne before.settled;
              })
        ]

    pub base_row : WellFormed db → Headed db.transactions db.files c.row
    unfolding find_table
    base_row w =
        (find-All (has_ident ident) (Headed db.transactions db.files) db.tables w.tables c.found).1

    -- The tables, the history and the files after the commit.
    tables_lem : db'.tables ≡ map move db.tables
    unfolding update_table
    tables_lem = ap (λ (d : Db). d.tables) c.db_is ∙ ap (map move) kept.tables

    files_lem : db'.files ≡ c.work.db.files
    unfolding update_table
    files_lem = ap (λ (d : Db). d.files) c.db_is

    after_Refers : WellFormed db → Refers db'
    unfolding update_table
    after_Refers w =
        let tables = c.work.db.tables in
        let (schemas, columns) = kept.schemas owned (w.refers.schemas, w.refers.columns) in
        let moved : (u : Uuid) → Owned tables u → Owned (map move tables) u = λ u o.
          subst (λ (ts : List TableRow). Owned (map move ts) u) (sym kept.tables)
            (Owned-after u (subst (λ (ts : List TableRow). Owned ts u) kept.tables o)) in
        subst Refers (sym c.db_is) (record {
          schemas = All-mono (λ s. moved s.table_uuid) c.work.db.schemas schemas;
          columns = columns;
          files =
              All-mono
                (λ f o.
                  moved f.table_uuid
                    (subst (λ (ts : List TableRow). Owned ts f.table_uuid) (sym kept.tables) o))
                c.work.db.files (kept.files owned w.refers.files);
        })

    after_WellFormed :
        Settled uuid env.transaction_id db'.files
        → (db'.transactions ≡ db.transactions ++ new ∷ [])
        → Later env db
        → WellFormed db
        → WellFormed db'
    after_WellFormed settled history later w =
        let headed = base_row w in
        let settled' = subst (Settled uuid env.transaction_id) files_lem settled in
        let base_is : headed.head ≡ base = some-injective (sym headed.is_head ∙ c.head) in
        let before = Headed-earlier env db c.row base later headed c.head in
        let rooted : Rooted db.transactions new = λ parent is.
          let same : base ≡ parent = some-injective is in
          (
            subst (λ (p : TxnId). p < env.transaction_id) same before,
            subst (λ (p : TxnId). any (transaction_of uuid p) db.transactions ≡ true)
                (base_is ∙ same) headed.present,
          ) in
        let all =
          All-map (Headed (db.transactions ++ new ∷ []) c.work.db.files) move db.tables
            (All-mono (λ t. moved-Headed t settled') db.tables w.tables) in
        record {
          tables = rw (tables_lem, history, files_lem) all;
          history = rw history (Rooted-append db.transactions new w.history rooted);
          refers = after_Refers w;
        }

  pub commit-WellFormed :
      (ident : TableIdent) (base : TxnId) (mutation : Mutation Value Map) (db db' : Db) (id : TxnId)
      → commit lib catalog env ident base mutation db ≡ ok (db', id)
      → Later env db
      → WellFormed db
      → WellFormed db'
  commit-WellFormed ident base mutation db db' id ran later w =
      let (c, is_id) = commit_lem lib catalog env ident base mutation db ran in
      let headed = base_row ident base mutation db db' c w in
      let before : base < id = rw is_id (Headed-earlier env db c.row base later headed c.head) in
      let settled =
        subst (λ (t : TxnId). Settled c.row.table_uuid t db.files)
          (some-injective (sym headed.is_head ∙ c.head)) headed.settled in
      let (steps, kept) =
        commit-Steps lib catalog env ident base mutation db db' id c.row c.found ran before
          settled in
      let moved =
        commit-current_transaction_id lib catalog env ident base mutation db db' id c.row c.found
          ran in
      after_WellFormed ident base mutation db db' c
        (subst (λ (t : TxnId). Settled c.row.table_uuid t db'.files) is_id kept)
        (subst
          (λ (t : TxnId).
            db'.transactions
            ≡ db.transactions
              ++ record {
                transaction_id = t;
                table_uuid = c.row.table_uuid;
                transaction_timestamp = env.now;
                parent_transaction_id = some base;
              }
                ∷ [])
          is_id moved.2)
        later w
