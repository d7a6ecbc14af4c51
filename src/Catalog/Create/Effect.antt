-- ===== src/Catalog/Create/Effect.antt =====
-- What a successful `create_table` leaves in the tables.
use planar.Base.{String, ◌≡◌, ap, sym, ◌∙◌, Option, [], ◌∷◌, ◌++◌, some, true, false, any, arith}
use planar.Base.Except.{ok, guard-eq-ok, >>=-eq-ok, ok-injective}
use planar.Json.{serialize_json}
use planar.Spec.{TableIdent, SchemaSpec, validate_schema}
use planar.Base.Eq.{nat_eq}
use text.Mathlib.TextEquality.{eq_iff}
use planar.Db.{
  Db, TableRow, has_ident, find_table, is_none, insert_table, insert_transaction, insert_schema,
  set_head, update_table, table_clash, schema_clash,
}
use planar.Db.Laws.{
  insert_table_lem, insert_transaction_lem, insert_schema_lem, find-map, find-append,
  has_ident-set_head,
}
use planar.Db.Fresh.{insert_table-fresh, insert_schema-fresh}
use planar.Catalog.{Libraries, SqlCatalog, Env}
use planar.Catalog.Columns.{insert_schema_columns}
use planar.Catalog.Columns.Rows.{column_rows, insert_schema_columns_lem}
use planar.Catalog.Create.{
  unwrap_or_default, new_table, first_transaction, first_schema, create_table,
}

module _ {Value Map : Type 0} (lib : Libraries Value Map) (catalog : SqlCatalog) (env : Env)
    (ident : TableIdent) (location : String) (schema : SchemaSpec) where
  -- The tables after the call, for the text of the properties.
  abbrev pub created : String → Db → Db
  created text db =
      update_table (set_head env.transaction_id (some (env.new_v4 1)) (env.new_v4 0)) (record db {
        tables = db.tables ++ new_table lib catalog env ident location text ∷ [];
        transactions = db.transactions ++ first_transaction lib catalog env ∷ [];
        schemas = db.schemas ++ first_schema lib catalog env ∷ [];
        columns = db.columns ++ column_rows lib.ipc env.new_v4 (env.new_v4 1) 2 1 schema.columns;
      })

  pub record Created (properties : Option Map) (db db' : Db) : Type 0 where
    pub valid : validate_schema schema ≡ ok tt
    pub unknown : is_none (find_table ident db) ≡ true
    pub text : String
    pub written :
        serialize_json lib.json (lib.json.object (unwrap_or_default lib catalog env properties))
        ≡ ok text
    pub table_new :
        any (table_clash (new_table lib catalog env ident location text)) db.tables ≡ false
    pub schema_new : any (schema_clash (first_schema lib catalog env)) db.schemas ≡ false
    pub db_is : db' ≡ created text db

  pub create_table_lem :
      (properties : Option Map) (db : Db) {db' : Db}
      → create_table lib catalog env ident location schema properties db ≡ ok db'
      → Created properties db db'
  unfolding create_table
  create_table_lem properties db h =
      let (_, valid, h₁) = >>=-eq-ok (validate_schema schema) _ h in
      let (unknown, h₂) = guard-eq-ok (is_none (find_table ident db)) _ _ h₁ in
      let (text, written, h₃) =
        >>=-eq-ok
          (serialize_json lib.json (lib.json.object (unwrap_or_default lib catalog env properties)))
          _ h₂ in
      let (db₁, ran₁, h₄) =
        >>=-eq-ok (insert_table (new_table lib catalog env ident location text) db) _ h₃ in
      let (db₂, ran₂, h₅) =
        >>=-eq-ok (insert_transaction (first_transaction lib catalog env) db₁) _ h₄ in
      let (db₃, ran₃, h₆) = >>=-eq-ok (insert_schema (first_schema lib catalog env) db₂) _ h₅ in
      let (db₄, ran₄, h₇) =
        >>=-eq-ok
          (insert_schema_columns lib.ipc env.new_v4 (env.new_v4 1) catalog.db_kind 2 schema.columns
            db₃)
          _ h₆ in
      let rows = column_rows lib.ipc env.new_v4 (env.new_v4 1) 2 1 schema.columns in
      let with_columns = λ (d : Db). record d { columns = d.columns ++ rows } in
      let with_schema =
        λ (d : Db). record d { schemas = d.schemas ++ first_schema lib catalog env ∷ [] } in
      let with_transaction = λ (d : Db). record d {
        transactions = d.transactions ++ first_transaction lib catalog env ∷ [];
      } in
      let head = set_head env.transaction_id (some (env.new_v4 1)) (env.new_v4 0) in
      record {
        valid = valid;
        unknown = unknown;
        text = text;
        written = written;
        table_new = insert_table-fresh db (new_table lib catalog env ident location text) ran₁;
        schema_new =
            let before : db₂.schemas ≡ db.schemas =
              ap (λ (d : Db). d.schemas)
                (insert_transaction_lem db₁ (first_transaction lib catalog env) ran₂)
              ∙ ap (λ (d : Db). d.schemas)
                  (insert_table_lem db (new_table lib catalog env ident location text) ran₁) in
            ap (any (schema_clash (first_schema lib catalog env))) (sym before)
            ∙ insert_schema-fresh db₂ (first_schema lib catalog env) ran₃;
        db_is =
            sym (ok-injective h₇)
            ∙ ap (update_table head) (
                insert_schema_columns_lem lib.ipc env.new_v4 (env.new_v4 1) catalog.db_kind 2
                  schema.columns db₃ ran₄
                ∙ ap with_columns (
                    insert_schema_lem db₂ (first_schema lib catalog env) ran₃
                    ∙ ap with_schema (
                        insert_transaction_lem db₁ (first_transaction lib catalog env) ran₂
                        ∙ ap with_transaction (
                            insert_table_lem db (new_table lib catalog env ident location text)
                              ran₁))));
      }

  -- The table's row after the call.
  abbrev pub created_row : String → TableRow
  created_row text = record (new_table lib catalog env ident location text) {
    current_transaction_id = some env.transaction_id;
    current_schema_uuid = some (env.new_v4 1);
  }

  has_ident-new_table :
      (text : String) → has_ident ident (new_table lib catalog env ident location text) ≡ true
  has_ident-new_table text =
      ground (arith, eq_iff ident.namespace ident.namespace, eq_iff ident.name ident.name)

  pub set_head-new_table :
      (text : String)
      → set_head env.transaction_id
          (some (env.new_v4 1))
          (env.new_v4 0)
          (new_table lib catalog env ident location text)
        ≡ created_row text
  unfolding set_head
  set_head-new_table text = ground arith

  -- The new table is found.
  pub find_table-created :
      (text : String) (db : Db)
      → is_none (find_table ident db) ≡ true
      → find_table ident (created text db) ≡ some (created_row text)
  unfolding find_table update_table
  find_table-created text db unknown =
      let row = new_table lib catalog env ident location text in
      let head = set_head env.transaction_id (some (env.new_v4 1)) (env.new_v4 0) in
      find-map (has_ident ident) head
        (has_ident-set_head ident env.transaction_id (some (env.new_v4 1)) (env.new_v4 0))
        (db.tables ++ row ∷ [])
        (find-append (has_ident ident) db.tables row unknown (has_ident-new_table text))
      ∙ ap some (set_head-new_table text)
