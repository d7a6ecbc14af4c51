-- ===== src/Catalog/Commit/Ops.antt =====
-- What one operation of a commit does to the tables, for all five operations at once.
use planar.Base.{
  String, Option, ◌≡◌, refl, ap, sym, ◌∙◌, List, [], ◌∷◌, ◌++◌, append-nil, map, All, All₂, nil,
  leb, length,
}
use planar.Base.Int.{as_u32}
use planar.Base.Except.{ok, guard-eq-ok, ok-injective}
use planar.Spec.{
  Uuid, FileSpec, MutationOp, append_files, delete_files, update_schema, set_properties,
  remove_properties,
}
use planar.Limits.{max_property_keys_to_remove}
use planar.Db.{Db, FileRow, mark_removed}
use planar.Catalog.{Libraries, SqlCatalog, Env, Work}
use planar.Catalog.Append.Effect.{IsNew, Stores, apply_append_lem}
use planar.Catalog.Delete.Effect.{apply_delete-map, map-mark_none}
use planar.Catalog.Evolve.Effect.{apply_update_schema_lem}
use planar.Catalog.Commit.{apply_remove_properties, apply_op}

-- The files that an operation adds, and the UUIDs that it removes.
abbrev pub appended : {Value Map : Type 0} → MutationOp Value Map → List (FileSpec Value)
appended (append_files files) = files
appended (delete_files uuids) = []
appended (update_schema spec) = []
appended (set_properties properties) = []
appended (remove_properties keys) = []

abbrev pub deleted : {Value Map : Type 0} → MutationOp Value Map → List Uuid
deleted (append_files files) = []
deleted (delete_files uuids) = uuids
deleted (update_schema spec) = []
deleted (set_properties properties) = []
deleted (remove_properties keys) = []

module _ {Value Map : Type 0} (lib : Libraries Value Map) (catalog : SqlCatalog) (env : Env)
    (table_uuid : Uuid) where
  pub record Effect (op : MutationOp Value Map) (work work' : Work Map) : Type 0 where
    pub rows : List FileRow
    pub files :
        work'.db.files
        ≡ map (mark_removed table_uuid env.transaction_id (deleted op)) work.db.files ++ rows
    pub stores : All₂ (Stores lib env table_uuid) (appended op) rows
    pub new : All (IsNew lib env table_uuid) rows
    pub tables : work'.db.tables ≡ work.db.tables
    pub transactions : work'.db.transactions ≡ work.db.transactions

  -- Marking no file and adding none is what leaves the files alone.
  unmarked :
      (files : List FileRow)
      → files ≡ map (mark_removed table_uuid env.transaction_id []) files ++ []
  unmarked files =
      sym (map-mark_none table_uuid env.transaction_id files)
      ∙ sym (append-nil (map (mark_removed table_uuid env.transaction_id []) files))

  -- An operation that adds and removes no file.
  still :
      (op : MutationOp Value Map) (work work' : Work Map)
      → appended op ≡ []
      → deleted op ≡ []
      → work'.db.files ≡ work.db.files
      → work'.db.tables ≡ work.db.tables
      → work'.db.transactions ≡ work.db.transactions
      → Effect op work work'
  still op work work' none_added none_removed same_files same_tables same_transactions = record {
    rows = [];
    files = rw none_removed (same_files ∙ unmarked work.db.files);
    stores = rw none_added nil;
    new = tt;
    tables = same_tables;
    transactions = same_transactions;
  }

  pub apply_remove_properties_lem :
      (keys : List String) (work : Work Map) {work' : Work Map}
      → apply_remove_properties lib catalog env keys work ≡ ok work'
      → work'.db ≡ work.db
  unfolding apply_remove_properties
  apply_remove_properties_lem [] work h = ap (λ (w : Work Map). w.db) (sym (ok-injective h))
  apply_remove_properties_lem (key ∷ rest) work h =
      let (_, h₁) =
        guard-eq-ok (leb (as_u32 (length (key ∷ rest))) max_property_keys_to_remove) _ _ h in
      ap (λ (w : Work Map). w.db) (sym (ok-injective h₁))

  pub apply_op_lem :
      (current : Option Uuid) (op : MutationOp Value Map) (work work' : Work Map)
      → apply_op lib catalog env table_uuid current op work ≡ ok work'
      → Effect op work work'
  unfolding apply_op
  apply_op_lem current (append_files files) work work' h =
      let e = apply_append_lem lib env table_uuid files work h in
      record {
        rows = e.rows;
        files =
            ap (λ (d : Db). d.files) e.db
            ∙ ap (λ (fs : List FileRow). fs ++ e.rows)
                (sym (map-mark_none table_uuid env.transaction_id work.db.files));
        stores = e.stores;
        new = e.new;
        tables = ap (λ (d : Db). d.tables) e.db;
        transactions = ap (λ (d : Db). d.transactions) e.db;
      }
  apply_op_lem current (delete_files uuids) work work' h =
      let e = apply_delete-map env table_uuid uuids work h in
      record {
        rows = [];
        files = ap (λ (w : Work Map). w.db.files) e ∙ sym (append-nil _);
        stores = nil;
        new = tt;
        tables = ap (λ (w : Work Map). w.db.tables) e;
        transactions = ap (λ (w : Work Map). w.db.transactions) e;
      }
  apply_op_lem current (update_schema spec) work work' h =
      let e = (apply_update_schema_lem lib catalog env table_uuid current spec work h).db in
      still (update_schema spec) work work' refl refl (ap (λ (d : Db). d.files) e)
        (ap (λ (d : Db). d.tables) e) (ap (λ (d : Db). d.transactions) e)
  apply_op_lem current (set_properties properties) work work' h =
      let e = sym (ok-injective h) in
      still (set_properties properties) work work' refl refl (ap (λ (w : Work Map). w.db.files) e)
        (ap (λ (w : Work Map). w.db.tables) e) (ap (λ (w : Work Map). w.db.transactions) e)
  apply_op_lem current (remove_properties keys) work work' h =
      let e = apply_remove_properties_lem keys work h in
      still (remove_properties keys) work work' refl refl (ap (λ (d : Db). d.files) e)
        (ap (λ (d : Db). d.tables) e) (ap (λ (d : Db). d.transactions) e)
