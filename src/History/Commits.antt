-- ===== src/History/Commits.antt =====
-- The operations of a commit keep the references between the rows, and the files of other tables.
use planar.Base.{
  ◌+◌, ◌≡◌, ◌≢◌, refl, ap, sym, ◌∙◌, true, Option, List, [], ◌∷◌, ◌++◌, map, any, All, All-append,
  All-map, All-mono, arith, ◌==◌,
}
use mathlib.Core.Path.{subst}
use planar.Base.Eq.{nat_eq}
use planar.Base.Except.{ok, ok-injective}
use planar.Base.Search.{any-append-left, any-last, any-map}
use planar.Spec.{
  Uuid, TxnId, SchemaSpec, MutationOp, append_files, delete_files, update_schema, set_properties,
  remove_properties,
}
use planar.Db.{Db, TableRow, SchemaRow, ColumnRow, FileRow, mark_removed, close_schema}
use planar.Catalog.{Libraries, SqlCatalog, Env, Work}
use planar.Catalog.Append.Effect.{apply_append_lem}
use planar.Catalog.Columns.Rows.{column_rows}
use planar.Catalog.Delete.Effect.{apply_delete-map}
use planar.Catalog.Evolve.Effect.{Evolves, next_schema, apply_update_schema_lem}
use planar.Catalog.Commit.{apply_op}
use planar.Catalog.Commit.Ops.{deleted, apply_op_lem, apply_remove_properties_lem}
use planar.Catalog.Commit.Refinement.{FileSettled, Settled}
use planar.History.WellFormed.{Owned, schema_with}
use planar.History.Creates.{column_rows_schema}

-- The references of schemas and columns.
abbrev pub SchemaRefs : Db → Type 0
SchemaRefs db =
    All (λ s. Owned db.tables s.table_uuid) db.schemas
    × All (λ c. any (schema_with c.schema_uuid) db.schemas ≡ true) db.columns

close_schema_same :
    (id : TxnId) (uuid : Uuid) (s : SchemaRow)
    → ((close_schema id uuid s).table_uuid ≡ s.table_uuid)
      × ((close_schema id uuid s).schema_uuid ≡ s.schema_uuid)
unfolding close_schema
close_schema_same id uuid s = (ground arith, ground arith)

mark_removed_same :
    (table_uuid : Uuid) (id : TxnId) (uuids : List Uuid) (f : FileRow)
    → (mark_removed table_uuid id uuids f).table_uuid ≡ f.table_uuid
unfolding mark_removed
mark_removed_same table_uuid id uuids f = ground arith

module _ {Value Map : Type 0} (lib : Libraries Value Map) (catalog : SqlCatalog) (env : Env)
    (table_uuid : Uuid) where
  module _ (current : Option Uuid) (spec : SchemaSpec) (v w : Work Map)
      (e : Evolves lib catalog env table_uuid current spec v w) where
    abbrev new_uuid : Uuid
    new_uuid = env.new_v4 v.drawn

    abbrev next : SchemaRow
    next = next_schema lib catalog env table_uuid new_uuid e.old

    abbrev close : SchemaRow → SchemaRow
    close = close_schema env.transaction_id e.current_uuid

    abbrev Known : List SchemaRow → ColumnRow → Type 0
    Known schemas c = any (schema_with c.schema_uuid) schemas ≡ true

    -- The test for a schema does not see that one is closed.
    Known-close :
        (schemas : List SchemaRow) (c : ColumnRow) → Known schemas c → Known (map close schemas) c
    Known-close schemas c h =
        any-map (schema_with c.schema_uuid) close (schema_with c.schema_uuid) schemas (λ s.
          ap (λ (u : Uuid). u == c.schema_uuid)
            (close_schema_same env.transaction_id e.current_uuid s).1)
        ∙ h

    Evolves-SchemaRefs : Owned v.db.tables table_uuid → SchemaRefs v.db → SchemaRefs w.db
    Evolves-SchemaRefs owned h =
        let all = v.db.schemas ++ next ∷ [] in
        let columns = column_rows lib.ipc env.new_v4 new_uuid (v.drawn + 1) 1 spec.columns in
        subst SchemaRefs (sym e.db) (
          All-map (λ s. Owned v.db.tables s.table_uuid) close all
              (All-mono
                (λ s own.
                  subst (Owned v.db.tables)
                    (sym (close_schema_same env.transaction_id e.current_uuid s).0) own)
                all
                (All-append (λ s. Owned v.db.tables s.table_uuid) v.db.schemas (next ∷ []) h.0
                  (owned, tt))),
          All-mono (Known-close all) (v.db.columns ++ columns) (
              All-append (Known all) v.db.columns columns
                (All-mono
                  (λ c. any-append-left (schema_with c.schema_uuid) v.db.schemas (next ∷ []))
                  v.db.columns h.1)
                (All-mono
                  (λ c own. any-last (schema_with c.schema_uuid) v.db.schemas next (ground arith))
                  columns (column_rows_schema lib env new_uuid (v.drawn + 1) 1 spec.columns))),
        )

  apply_op-SchemaRefs :
      (current : Option Uuid) (op : MutationOp Value Map) (v w : Work Map)
      → apply_op lib catalog env table_uuid current op v ≡ ok w
      → Owned v.db.tables table_uuid
      → SchemaRefs v.db
      → SchemaRefs w.db
  unfolding apply_op
  apply_op-SchemaRefs current (append_files files) v w ran owned h =
      subst SchemaRefs (sym (apply_append_lem lib env table_uuid files v ran).db) h
  apply_op-SchemaRefs current (delete_files uuids) v w ran owned h =
      subst (λ (u : Work Map). SchemaRefs u.db) (sym (apply_delete-map env table_uuid uuids v ran))
        h
  apply_op-SchemaRefs current (update_schema spec) v w ran owned h =
      Evolves-SchemaRefs current spec v w
        (apply_update_schema_lem lib catalog env table_uuid current spec v ran) owned h
  apply_op-SchemaRefs current (set_properties properties) v w ran owned h =
      subst (λ (u : Work Map). SchemaRefs u.db) (ok-injective ran) h
  apply_op-SchemaRefs current (remove_properties keys) v w ran owned h =
      subst SchemaRefs (sym (apply_remove_properties_lem lib catalog env table_uuid keys v ran)) h

  -- What all operations keep: the tables, the references, and the files of the other tables.
  pub record Keeps (v w : Work Map) : Type 0 where
    pub tables : w.db.tables ≡ v.db.tables
    pub schemas : Owned v.db.tables table_uuid → SchemaRefs v.db → SchemaRefs w.db
    pub files :
        Owned v.db.tables table_uuid
        → All (λ f. Owned v.db.tables f.table_uuid) v.db.files
        → All (λ f. Owned v.db.tables f.table_uuid) w.db.files
    pub settled :
        (other : Uuid) (head : TxnId)
        → other ≢ table_uuid
        → Settled other head v.db.files
        → Settled other head w.db.files

  pub Keeps-refl : (v : Work Map) → Keeps v v
  Keeps-refl v = record {
    tables = refl;
    schemas = λ owned h. h;
    files = λ owned h. h;
    settled = λ other head ne h. h;
  }

  pub Keeps-trans : (u v w : Work Map) → Keeps u v → Keeps v w → Keeps u w
  Keeps-trans u v w a b =
      let onward = λ (owned : Owned u.db.tables table_uuid).
        subst (λ (ts : List TableRow). Owned ts table_uuid) (sym a.tables) owned in
      let back = λ (ts : List TableRow).
        All (λ f. Owned ts f.table_uuid) v.db.files → All (λ f. Owned ts f.table_uuid) w.db.files in
      record {
        tables = b.tables ∙ a.tables;
        schemas = λ owned h. b.schemas (onward owned) (a.schemas owned h);
        files = λ owned h. subst back a.tables (b.files (onward owned)) (a.files owned h);
        settled = λ other head ne h. b.settled other head ne (a.settled other head ne h);
      }

  mark-other :
      (other : Uuid) (head : TxnId) (uuids : List Uuid) (f : FileRow)
      → other ≢ table_uuid
      → FileSettled other head f
      → FileSettled other head (mark_removed table_uuid env.transaction_id uuids f)
  unfolding mark_removed
  mark-other other head uuids f ne h = λ own. ground (arith, h, ne, own)

  pub apply_op-Keeps :
      (current : Option Uuid) (op : MutationOp Value Map) (v w : Work Map)
      → apply_op lib catalog env table_uuid current op v ≡ ok w
      → Keeps v w
  apply_op-Keeps current op v w ran =
      let e = apply_op_lem lib catalog env table_uuid current op v w ran in
      let mark = mark_removed table_uuid env.transaction_id (deleted op) in
      record {
        tables = e.tables;
        schemas = apply_op-SchemaRefs current op v w ran;
        files = λ owned h.
            let own = λ (f : FileRow). Owned v.db.tables f.table_uuid in
            subst (All own) (sym e.files) (
              All-append own (map mark v.db.files) e.rows
                (All-map own mark v.db.files (
                  All-mono
                    (λ f o.
                      subst (Owned v.db.tables)
                        (sym (mark_removed_same table_uuid env.transaction_id (deleted op) f)) o)
                    v.db.files h))
                (All-mono (λ f new. subst (Owned v.db.tables) (sym new.0) owned) e.rows e.new));
        settled = λ other head ne h. subst (Settled other head) (sym e.files) (
            All-append (FileSettled other head) (map mark v.db.files) e.rows
              (All-map (FileSettled other head) mark v.db.files
                (All-mono (λ f. mark-other other head (deleted op) f ne) v.db.files h))
              (All-mono (λ f new own. absurd (ne (sym own ∙ new.0))) e.rows e.new));
      }
