-- ===== src/Catalog/Commit/Effect.antt =====
-- A successful `commit`, taken apart.
use planar.Base.{
  String, ◌≡◌, ap, sym, ◌∙◌, Option, some, List, [], ◌∷◌, ◌++◌, ltb, leb, length, ◌==◌, ==_iff,
}
use mathlib.Core.Path.{subst}
use planar.Base.Int.{as_u32}
use planar.Base.Except.{ok, guard-eq-ok, >>=-eq-ok, ok_or-eq-ok, ok-injective}
use planar.Error.{not_found, invalid_argument}
use planar.Json.{parse_table_properties, serialize_json}
use planar.Limits.{max_operations_per_mutation}
use planar.Spec.{Uuid, TxnId, TableIdent, Mutation, MutationOp, validate_mutation}
use planar.Db.{
  Db, TableRow, find_table, insert_transaction, set_head, set_properties_text, update_table,
}
use planar.Db.Laws.{insert_transaction_lem}
use planar.Catalog.{Libraries, SqlCatalog, Env, Work, ensure_writer_protocol_compatible}
use planar.Catalog.Commit.{apply_op, apply_ops, option_or, commit_transaction, commit_row, commit}

module _ {Value Map : Type 0} (lib : Libraries Value Map) (catalog : SqlCatalog) (env : Env) where
  module _ (R : Work Map → Work Map → Type 0) where
    -- What every operation does to the state, a run over operations does, if it composes.
    pub apply_ops_induction :
        (table_uuid : Uuid) (current : Option Uuid)
        → ((w : Work Map) → R w w)
        → ((u v w : Work Map) → R u v → R v w → R u w)
        → ((op : MutationOp Value Map) (v w : Work Map)
            → apply_op lib catalog env table_uuid current op v ≡ ok w
            → R v w)
        → (ops : List (MutationOp Value Map)) (v w : Work Map)
        → apply_ops lib catalog env table_uuid current ops v ≡ ok w
        → R v w
    unfolding apply_ops
    apply_ops_induction t c same join step [] v w h = subst (R v) (ok-injective h) (same v)
    apply_ops_induction t c same join step (op ∷ ops) v w h =
        let (u, ran, rest) = >>=-eq-ok (apply_op lib catalog env t c op v) _ h in
        join v u w (step op v u ran) (apply_ops_induction t c same join step ops u w rest)

  -- The table's row after the commit.
  abbrev pub new_head : String → Option Uuid → Uuid → TableRow → TableRow
  new_head text schema_uuid table_uuid t =
      set_properties_text text table_uuid (set_head env.transaction_id schema_uuid table_uuid t)

  abbrev pub start_work : Db → TableRow → Map → TxnId → Work Map
  start_work db row properties parent = record {
    db = record db {
      transactions =
          db.transactions ++ commit_transaction lib catalog env row.table_uuid parent ∷ [];
    };
    properties_value = properties;
    new_schema_uuid = row.current_schema_uuid;
    drawn = 0;
  }

  -- The parts of a successful commit: the row of the table, whose head was the base; the run of the
  -- operations; and the update of the row.
  pub record Committed (ident : TableIdent) (base : TxnId) (mutation : Mutation Value Map)
      (db db' : Db) : Type 0 where
    pub row : TableRow
    pub found : find_table ident db ≡ some row
    pub head : row.current_transaction_id ≡ some base
    pub valid : validate_mutation mutation ≡ ok tt
    pub allowed : ensure_writer_protocol_compatible catalog ident row.min_writer_version ≡ ok tt
    pub properties : Map
    pub parsed : parse_table_properties lib.json row.properties ≡ ok properties
    pub work : Work Map
    pub ran :
        apply_ops lib catalog env row.table_uuid row.current_schema_uuid mutation.operations
          (start_work db row properties base)
        ≡ ok work
    pub text : String
    pub written : serialize_json lib.json (lib.json.object work.properties_value) ≡ ok text
    pub db_is :
        db'
        ≡ update_table
            (new_head text
              (option_or lib catalog env work.new_schema_uuid row.current_schema_uuid)
              row.table_uuid)
            work.db

  -- The parts of the database transaction, for a head `current` that is the base.
  record Body (row : TableRow) (base : TxnId) (mutation : Mutation Value Map) (properties : Map)
      (db db' : Db) : Type 0 where
    work : Work Map
    ran :
        apply_ops lib catalog env row.table_uuid row.current_schema_uuid mutation.operations
          (start_work db row properties base)
        ≡ ok work
    text : String
    written : serialize_json lib.json (lib.json.object work.properties_value) ≡ ok text
    db_is :
        db'
        ≡ update_table
            (new_head text
              (option_or lib catalog env work.new_schema_uuid row.current_schema_uuid)
              row.table_uuid)
            work.db

  commit_row_lem :
      (row : TableRow) (current base : TxnId) (mutation : Mutation Value Map) (properties : Map)
      (db : Db) {db' : Db}
      → commit_row lib catalog env row current base mutation properties db ≡ ok db'
      → (current ≡ base) × Body row current mutation properties db db'
  unfolding commit_row
  commit_row_lem row current base mutation properties db h =
      let (same, h₁) = guard-eq-ok (current == base) _ _ h in
      let (db₂, inserted, h₂) =
        >>=-eq-ok
          (insert_transaction (commit_transaction lib catalog env row.table_uuid current) db) _
          h₁ in
      let e₂ =
        insert_transaction_lem db (commit_transaction lib catalog env row.table_uuid current)
          inserted in
      let started : Db → Work Map = λ (d : Db). record {
        db = d;
        properties_value = properties;
        new_schema_uuid = row.current_schema_uuid;
        drawn = 0;
      } in
      let run = λ (d : Db).
        apply_ops lib catalog env row.table_uuid row.current_schema_uuid mutation.operations
          (started d) in
      let (work, ran, h₃) = >>=-eq-ok (run db₂) _ h₂ in
      let (text, written, h₄) =
        >>=-eq-ok (serialize_json lib.json (lib.json.object work.properties_value)) _ h₃ in
      (
        (==_iff current base).0 same,
        record {
          work = work;
          ran = subst (λ (d : Db). run d ≡ ok work) e₂ ran;
          text = text;
          written = written;
          db_is = sym (ok-injective h₄);
        },
      )

  pub commit_lem :
      (ident : TableIdent) (base : TxnId) (mutation : Mutation Value Map) (db : Db) {db' : Db}
      {id : TxnId}
      → commit lib catalog env ident base mutation db ≡ ok (db', id)
      → Committed ident base mutation db db' × (id ≡ env.transaction_id)
  unfolding commit
  commit_lem ident base mutation db {db'} h =
      let (_, h₁) = guard-eq-ok (ltb 0 (length mutation.operations)) _ _ h in
      let (_, h₂) =
        guard-eq-ok (leb (as_u32 (length mutation.operations)) max_operations_per_mutation) _ _
          h₁ in
      let (_, valid, h₃) = >>=-eq-ok (validate_mutation mutation) _ h₂ in
      let (row, found, h₄) = ok_or-eq-ok (find_table ident db) (not_found "{}.{}") _ h₃ in
      let (properties, parsed, h₅) =
        >>=-eq-ok (parse_table_properties lib.json row.properties) _ h₄ in
      let (_, allowed, h₆) =
        >>=-eq-ok (ensure_writer_protocol_compatible catalog ident row.min_writer_version) _ h₅ in
      let (current, head, h₇) =
        ok_or-eq-ok row.current_transaction_id (invalid_argument "table has no current transaction")
          _ h₆ in
      let (db₁, ran, h₈) =
        >>=-eq-ok (commit_row lib catalog env row current base mutation properties db) _ h₇ in
      let (is_base, body₀) = commit_row_lem row current base mutation properties db ran in
      let body = subst (λ (c : TxnId). Body row c mutation properties db db₁) is_base body₀ in
      let e = ok-injective h₈ in
      let is_db : db₁ ≡ db' = ap (λ (p : Db × TxnId). p.0) e in
      (
        record {
          row = row;
          found = found;
          head = head ∙ ap some is_base;
          valid = valid;
          allowed = allowed;
          properties = properties;
          parsed = parsed;
          work = body.work;
          ran = body.ran;
          text = body.text;
          written = body.written;
          db_is = sym is_db ∙ body.db_is;
        },
        sym (ap (λ (p : Db × TxnId). p.1) e),
      )
