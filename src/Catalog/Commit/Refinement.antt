-- ===== src/Catalog/Commit/Refinement.antt =====
-- `commit` against its abstract specification: a table is the list of its live files, and an
-- operation removes some of them and adds others at the end.
use planar.Base.{
  ◌≡◌, refl, ap, sym, ◌∙◌, ◌<◌, ◌≤◌, Option, some, List, [], ◌∷◌, ◌++◌, map, arith, Bool, true, not,
  ◌&&◌, ◌==◌, filter, filter-append, filter-All, filter_congr, All, All₂, some-injective, All-mono,
  All-append, All-map,
}
use planar.Base.Eq.{contains, nat_eq}
use planar.Base.Except.{ok, >>=-eq-ok, ok-injective}
use planar.Spec.{Uuid, TxnId, TableIdent, Mutation, MutationOp}
use planar.Db.{Db, TableRow, FileRow, find_table, is_none, mark_removed, update_table}
use planar.Catalog.{Libraries, SqlCatalog, Env, Work}
use planar.Catalog.Append.Effect.{IsNew, Stores}
use planar.Catalog.Commit.{commit, apply_op, apply_ops}
use planar.Catalog.Commit.Effect.{Committed, commit_lem, start_work}
use planar.Catalog.Commit.Ops.{Effect, appended, deleted, apply_op_lem}
use planar.Catalog.Rows.{after, file_visible, files_at}
use mathlib.Core.Path.{subst}

-- The live files of a table, and those that an operation does not name.
abbrev pub is_live : Uuid → FileRow → Bool
is_live table_uuid f = f.table_uuid == table_uuid && is_none f.removed_in_transaction_id

abbrev pub live : Uuid → List FileRow → List FileRow
live table_uuid files = filter (is_live table_uuid) files

abbrev pub keep : List Uuid → List FileRow → List FileRow
keep uuids files = filter (λ f. not (contains uuids f.file_uuid)) files

-- Every file of the table was added, and removed if it was, by transaction `t`.
abbrev pub FileSettled : Uuid → TxnId → FileRow → Type 0
FileSettled table_uuid t f =
    f.table_uuid ≡ table_uuid
    → (f.added_in_transaction_id ≤ t)
      × (after t f.removed_in_transaction_id ≡ is_none f.removed_in_transaction_id)

abbrev pub Settled : Uuid → TxnId → List FileRow → Type 0
Settled table_uuid t files = All (FileSettled table_uuid t) files

module _ (table_uuid : Uuid) where
  -- In a settled state the visible files are the live ones.
  file_visible_lem :
      (t : TxnId) (f : FileRow)
      → FileSettled table_uuid t f
      → file_visible table_uuid t f ≡ is_live table_uuid f
  unfolding file_visible
  file_visible_lem t f h = ground arith

  pub files_at_lem :
      (t : TxnId) (db : Db)
      → Settled table_uuid t db.files
      → files_at table_uuid t db ≡ live table_uuid db.files
  unfolding files_at
  files_at_lem t db h =
      filter_congr (file_visible table_uuid t) (is_live table_uuid) db.files
        (All-mono (file_visible_lem t) db.files h)

  module _ (id : TxnId) (uuids : List Uuid) where
    is_live-mark :
        (f : FileRow)
        → is_live table_uuid (mark_removed table_uuid id uuids f)
          ≡ (is_live table_uuid f && not (contains uuids f.file_uuid))
    unfolding mark_removed
    is_live-mark f = ground arith

    mark_live :
        (f : FileRow)
        → (is_live table_uuid f && not (contains uuids f.file_uuid)) ≡ true
        → mark_removed table_uuid id uuids f ≡ f
    unfolding mark_removed
    mark_live f h = ground arith

    -- After a delete, the live files are those that it does not name.
    live-mark :
        (files : List FileRow)
        → live table_uuid (map (mark_removed table_uuid id uuids) files)
          ≡ keep uuids (live table_uuid files)
    live-mark [] = refl
    live-mark (f ∷ files) = ground (arith, is_live-mark f, mark_live f, live-mark files)

    FileSettled-mark :
        (f : FileRow)
        → FileSettled table_uuid id f
        → FileSettled table_uuid id (mark_removed table_uuid id uuids f)
    unfolding mark_removed
    FileSettled-mark f h = ground arith

  FileSettled-mono :
      (t id : TxnId) (f : FileRow)
      → t ≤ id
      → FileSettled table_uuid t f
      → FileSettled table_uuid id f
  FileSettled-mono t id f le h = λ own. ground (arith, h own)

module _ {Value Map : Type 0} (lib : Libraries Value Map) (env : Env) (table_uuid : Uuid) where
  -- The specification of one operation: the files it names are gone, and there is one new file for
  -- each that it adds, in order.
  pub record Step (op : MutationOp Value Map) (before after : List FileRow) : Type 0 where
    pub rows : List FileRow
    pub stores : All₂ (Stores lib env table_uuid) (appended op) rows
    pub new : All (IsNew lib env table_uuid) rows
    pub result : after ≡ keep (deleted op) before ++ rows

  -- The operations, one after the other.
  pub data Steps : List (MutationOp Value Map) → List FileRow → List FileRow → Type 0 where
    done : {files : List FileRow} → Steps [] files files
    next :
        {op : MutationOp Value Map} {ops : List (MutationOp Value Map)}
        {before between after : List FileRow}
        → Step op before between
        → Steps ops between after
        → Steps (op ∷ ops) before after

  IsNew-live : (f : FileRow) → IsNew lib env table_uuid f → is_live table_uuid f ≡ true
  IsNew-live f h = ground (arith, h.0, h.2)

  IsNew-Settled :
      (f : FileRow) → IsNew lib env table_uuid f → FileSettled table_uuid env.transaction_id f
  IsNew-Settled f h = λ own. ground (arith, h.1, h.2)

module _ {Value Map : Type 0} (lib : Libraries Value Map) (catalog : SqlCatalog) (env : Env)
    (table_uuid : Uuid) where
  live_files : Work Map → List FileRow
  live_files w = live table_uuid w.db.files

  module _ (op : MutationOp Value Map) (work work' : Work Map)
      (e : Effect lib catalog env table_uuid op work work') where
    Effect-Step : Step lib env table_uuid op (live_files work) (live_files work')
    unfolding live_files
    Effect-Step =
        let marked = map (mark_removed table_uuid env.transaction_id (deleted op)) work.db.files in
        record {
          rows = e.rows;
          stores = e.stores;
          new = e.new;
          result =
              ap (live table_uuid) e.files
              ∙ filter-append (is_live table_uuid) marked e.rows
              ∙ ap (◌++◌ (live table_uuid marked)) (
                  filter-All (is_live table_uuid) e.rows
                    (All-mono (IsNew-live lib env table_uuid) e.rows e.new))
              ∙ ap (λ (fs : List FileRow). fs ++ e.rows)
                  (live-mark table_uuid env.transaction_id (deleted op) work.db.files);
        }

    Effect-Settled :
        Settled table_uuid env.transaction_id work.db.files
        → Settled table_uuid env.transaction_id work'.db.files
    Effect-Settled h =
        let mark = mark_removed table_uuid env.transaction_id (deleted op) in
        rw e.files (
          All-append (FileSettled table_uuid env.transaction_id) (map mark work.db.files) e.rows
            (All-map (FileSettled table_uuid env.transaction_id) mark work.db.files (
              All-mono (FileSettled-mark table_uuid env.transaction_id (deleted op)) work.db.files
                h))
            (All-mono (IsNew-Settled lib env table_uuid) e.rows e.new))

  -- A run of operations follows the specification, and keeps the state settled.
  apply_ops-Steps :
      (current : Option Uuid) (ops : List (MutationOp Value Map)) (work work' : Work Map)
      → apply_ops lib catalog env table_uuid current ops work ≡ ok work'
      → Settled table_uuid env.transaction_id work.db.files
      → Steps lib env table_uuid ops (live_files work) (live_files work')
        × Settled table_uuid env.transaction_id work'.db.files
  unfolding apply_ops
  apply_ops-Steps current [] work work' h settled =
      let e : work ≡ work' = ok-injective h in
      (
        subst (λ (w : Work Map). Steps lib env table_uuid [] (live_files work) (live_files w)) e
            done,
        subst (λ (w : Work Map). Settled table_uuid env.transaction_id w.db.files) e settled,
      )
  apply_ops-Steps current (op ∷ ops) work work' h settled =
      let (middle, ran, rest) =
        >>=-eq-ok (apply_op lib catalog env table_uuid current op work) _ h in
      let e = apply_op_lem lib catalog env table_uuid current op work middle ran in
      let (steps, kept) =
        apply_ops-Steps current ops middle work' rest (Effect-Settled op work middle e settled) in
      (next (Effect-Step op work middle e) steps, kept)

module _ {Value Map : Type 0} (lib : Libraries Value Map) (catalog : SqlCatalog) (env : Env) where
  Committed-Steps :
      (ident : TableIdent) (base : TxnId) (mutation : Mutation Value Map) (db db' : Db)
      (c : Committed lib catalog env ident base mutation db db')
      → base < env.transaction_id
      → Settled c.row.table_uuid base db.files
      → Steps lib env c.row.table_uuid mutation.operations
          (files_at c.row.table_uuid base db)
          (files_at c.row.table_uuid env.transaction_id db')
        × Settled c.row.table_uuid env.transaction_id db'.files
  unfolding update_table live_files
  Committed-Steps ident base mutation db db' c later settled =
      let table = c.row.table_uuid in
      let at_head =
        All-mono (λ f. FileSettled-mono table base env.transaction_id f (omega arith)) db.files
          settled in
      let (steps, kept) =
        apply_ops-Steps lib catalog env table c.row.current_schema_uuid mutation.operations
          (start_work lib catalog env db c.row c.properties base) c.work c.ran at_head in
      let same_files : db'.files ≡ c.work.db.files = ap (λ (d : Db). d.files) c.db_is in
      let kept' : Settled table env.transaction_id db'.files = rw same_files kept in
      let before = files_at_lem table base db settled in
      let after = files_at_lem table env.transaction_id db' kept' in
      (rw before (rw after (rw same_files steps)), kept')

  -- A commit implements its specification. If every file of the table was added or removed by the
  -- base or before, and the new transaction is later than the base, then after a successful commit
  -- the files that a read at the new transaction finds are those that a read at the base found
  -- before, changed by the mutation's operations one after the other: a delete drops exactly the
  -- files that it names, an append adds one row at the end for each file, storing it, and the other
  -- operations keep the list. Every file of the table was then added or removed by the new
  -- transaction or before.
  pub commit-Steps :
      (ident : TableIdent) (base : TxnId) (mutation : Mutation Value Map) (db db' : Db) (id : TxnId)
      (row : TableRow)
      → find_table ident db ≡ some row
      → commit lib catalog env ident base mutation db ≡ ok (db', id)
      → base < id
      → Settled row.table_uuid base db.files
      → Steps lib env row.table_uuid mutation.operations
          (files_at row.table_uuid base db)
          (files_at row.table_uuid id db')
        × Settled row.table_uuid id db'.files
  commit-Steps ident base mutation db db' id row found ran later settled =
      let (c, is_id) = commit_lem lib catalog env ident base mutation db ran in
      let same : row ≡ c.row = some-injective (sym found ∙ c.found) in
      let settled' = subst (λ (r : TableRow). Settled r.table_uuid base db.files) same settled in
      let goal = λ (r : TableRow) (t : TxnId).
        Steps lib env r.table_uuid mutation.operations (files_at r.table_uuid base db)
          (files_at r.table_uuid t db')
        × Settled r.table_uuid t db'.files in
      subst (λ (r : TableRow). goal r id) (sym same)
        (subst (goal c.row) (sym is_id)
          (Committed-Steps ident base mutation db db' c (rw⁻¹ is_id later) settled'))
