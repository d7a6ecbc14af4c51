-- ===== src/Catalog/Evolve/Effect.antt =====
-- What a successful `UpdateSchema` does to the tables.
use planar.Base.{◌+◌, ◌≡◌, ap, sym, ◌∙◌, Option, none, some, List, [], ◌∷◌, ◌++◌, map, filter, ◌==◌}
use planar.Base.Int.{succ_i32}
use planar.Base.Except.{ok, >>=-eq-ok, ok_or-eq-ok, ok-injective}
use planar.Error.{invalid_argument, storage, row_not_found}
use planar.Spec.{Uuid, SchemaSpec, validate_schema}
use planar.Db.{Db, SchemaRow, find, insert_schema, close_schema, update_schema_end}
use planar.Db.Laws.{insert_schema_lem}
use planar.Catalog.{Libraries, SqlCatalog, Env, Work}
use planar.Catalog.Columns.{insert_schema_columns}
use planar.Catalog.Columns.Rows.{column_rows, insert_schema_columns_lem}
use planar.Catalog.Evolve.{CurrentColumn, current_columns, validate_evolution, apply_update_schema}

module _ {Value Map : Type 0} (lib : Libraries Value Map) (catalog : SqlCatalog) (env : Env)
    (table_uuid : Uuid) where
  -- The row of the new schema version.
  abbrev pub next_schema : Uuid → SchemaRow → SchemaRow
  next_schema schema_uuid old = record {
    schema_uuid = schema_uuid;
    table_uuid = table_uuid;
    schema_version = succ_i32 old.schema_version;
    valid_from_transaction_id = env.transaction_id;
    valid_to_transaction_id = none;
    created_at = env.now;
  }

  -- What the operation leaves. `old` is the row of the current schema, and `columns` are its columns.
  pub record Evolves (current : Option Uuid) (spec : SchemaSpec) (work work' : Work Map)
      : Type 0 where
    pub current_uuid : Uuid
    pub has_current : current ≡ some current_uuid
    pub old : SchemaRow
    pub found : find (λ s. s.schema_uuid == current_uuid) work.db.schemas ≡ some old
    pub columns : List CurrentColumn
    pub read :
        current_columns lib.ipc (filter (λ c. c.schema_uuid == current_uuid) work.db.columns)
        ≡ ok columns
    pub valid : validate_schema spec ≡ ok tt
    pub safe : validate_evolution columns spec ≡ ok tt
    pub db : work'.db ≡ record work.db {
      schemas =
          map
            (close_schema env.transaction_id current_uuid)
            (work.db.schemas ++ next_schema (env.new_v4 work.drawn) old ∷ []);
      columns =
          work.db.columns
          ++ column_rows lib.ipc env.new_v4 (env.new_v4 work.drawn) (work.drawn + 1) 1 spec.columns;
    }
    pub new_schema : work'.new_schema_uuid ≡ some (env.new_v4 work.drawn)
    pub properties : work'.properties_value ≡ work.properties_value

  pub apply_update_schema_lem :
      (current : Option Uuid) (spec : SchemaSpec) (work : Work Map) {work' : Work Map}
      → apply_update_schema lib catalog env table_uuid current spec work ≡ ok work'
      → Evolves current spec work work'
  unfolding apply_update_schema update_schema_end
  apply_update_schema_lem current spec work h =
      let (_, valid, h₁) = >>=-eq-ok (validate_schema spec) _ h in
      let (uuid, has, h₂) =
        ok_or-eq-ok current (invalid_argument "cannot update schema without a current schema") _
          h₁ in
      let (old, found, h₃) =
        ok_or-eq-ok (find (λ s. s.schema_uuid == uuid) work.db.schemas) (storage row_not_found) _
          h₂ in
      let (columns, read, h₄) =
        >>=-eq-ok (current_columns lib.ipc (filter (λ c. c.schema_uuid == uuid) work.db.columns)) _
          h₃ in
      let (_, safe, h₅) = >>=-eq-ok (validate_evolution columns spec) _ h₄ in
      let schema_uuid = env.new_v4 work.drawn in
      let (db₁, ran, h₆) = >>=-eq-ok (insert_schema (next_schema schema_uuid old) work.db) _ h₅ in
      let closed = update_schema_end env.transaction_id uuid db₁ in
      let (db₂, ran₂, h₇) =
        >>=-eq-ok
          (insert_schema_columns lib.ipc env.new_v4 schema_uuid catalog.db_kind (work.drawn + 1)
            spec.columns closed)
          _ h₆ in
      let e₁ = insert_schema_lem work.db (next_schema schema_uuid old) ran in
      let e₂ =
        insert_schema_columns_lem lib.ipc env.new_v4 schema_uuid catalog.db_kind (work.drawn + 1)
          spec.columns closed ran₂ in
      let e₃ = ok-injective h₇ in
      record {
        current_uuid = uuid;
        has_current = has;
        old = old;
        found = found;
        columns = columns;
        read = read;
        valid = valid;
        safe = safe;
        db =
            ap (λ (w : Work Map). w.db) (sym e₃)
            ∙ e₂
            ∙ ap
                (λ (d : Db). record d {
                  schemas = map (close_schema env.transaction_id uuid) d.schemas;
                  columns =
                      d.columns
                      ++ column_rows lib.ipc env.new_v4 schema_uuid (work.drawn + 1) 1 spec.columns;
                })
                e₁;
        new_schema = ap (λ (w : Work Map). w.new_schema_uuid) (sym e₃);
        properties = ap (λ (w : Work Map). w.properties_value) (sym e₃);
      }
