-- ===== src/Events/Content.antt =====
-- What the events of a transaction hold: every row of the transaction, none cut off by a LIMIT.
use planar.Base.{
  ℕ, suc, ◌+◌, ◌≡◌, ◌≤◌, refl, Option, some, none, List, [], ◌∷◌, ◌++◌, arith, not, ◌&&◌, ltb, ◌==◌,
  length, take, filter, length-take, take_of_length-le, All₂, nil, cons,
}
use mathlib.Core.Path.{subst}
use planar.Base.Eq.{nat_eq}
use planar.Base.Except.{ok, guard-eq-ok, >>=-eq-ok, ok_or-eq-ok, ok-injective}
use planar.Error.{invalid_argument, limit_exceeded}
use planar.Limits.{max_files_per_query, max_schema_changes_per_scan}
use planar.Spec.{Uuid, TxnId}
use planar.Db.{Db, SchemaRow, FileRow}
use planar.Catalog.{Libraries, SqlCatalog}
use planar.Catalog.Rows.{Column, load_columns, read_file}
use planar.Delta.{TxnFileChangeKind, added, removed, TxnFileChange, TxnSchemaChange, TxnEvent}
use planar.Events.{
  Counts, ends_in, event_id, overflow_message, file_changes, schema_change, event, events_of,
  added_rows, removed_rows, schema_rows,
}

-- A LIMIT that is not reached cuts nothing off.
take-short :
    {A : Type 0} (n : ℕ) (xs : List A) → length (take (n + 1) xs) ≤ n → take (n + 1) xs ≡ xs
take-short n xs h = take_of_length-le (n + 1) xs (omega (arith, length-take (n + 1) xs))

-- All rows that a transaction added or removed, and the schemas that it made.
abbrev pub all_added : Uuid → TxnId → Db → List FileRow
all_added table_uuid id db =
    filter (λ f. f.table_uuid == table_uuid && f.added_in_transaction_id == id) db.files

abbrev pub all_removed : Uuid → TxnId → Db → List FileRow
all_removed table_uuid id db =
    filter (λ f. f.table_uuid == table_uuid && ends_in id f.removed_in_transaction_id) db.files

abbrev pub all_schemas : Uuid → TxnId → Db → List SchemaRow
all_schemas table_uuid id db =
    filter (λ s. s.table_uuid == table_uuid && s.valid_from_transaction_id == id) db.schemas

module _ {Value Map : Type 0} (lib : Libraries Value Map) (catalog : SqlCatalog) where
  -- The change reports the row.
  pub record Reports (kind : TxnFileChangeKind) (row : FileRow) (change : TxnFileChange Value)
      : Type 0 where
    pub kind_is : change.kind ≡ kind
    pub id_is : event_id kind row ≡ some change.transaction_id
    pub read : read_file lib.json row ≡ ok change.file

  -- The schemas of a transaction, at most one, as they are reported.
  pub data ReportsSchema (db : Db) : List SchemaRow → Option TxnSchemaChange → Type 0 where
    unchanged : ReportsSchema db [] none
    changed :
        {row : SchemaRow} {columns : List Column}
        → load_columns lib.ipc "schema change column count exceeds limit of {}" row.schema_uuid db
          ≡ ok columns
        → ReportsSchema db (row ∷ []) (
            some (record {
              transaction_id = row.valid_from_transaction_id;
              schema = record { row = row; columns = columns };
            }))

  file_changes_lem :
      (kind : TxnFileChangeKind) (count : ℕ) (rows : List FileRow)
      {result : List (TxnFileChange Value) × ℕ}
      → file_changes lib catalog kind count rows ≡ ok result
      → count ≤ max_files_per_query
      → All₂ (Reports kind) rows result.0
        × (result.1 ≡ count + length rows)
        × (result.1 ≤ max_files_per_query)
  unfolding file_changes
  file_changes_lem kind count [] {result} h small =
      let e = ok-injective h in
      subst
        (λ (r : List (TxnFileChange Value) × ℕ).
          All₂ (Reports kind) [] r.0 × (r.1 ≡ count + 0) × (r.1 ≤ max_files_per_query))
        e (nil, omega arith, small)
  file_changes_lem kind count (row ∷ rest) {result} h small =
      let (few, h₁) =
        guard-eq-ok (not (ltb max_files_per_query (count + 1)))
          (limit_exceeded (overflow_message kind)) _ h in
      let (id, id_is, h₂) =
        ok_or-eq-ok (event_id kind row) (invalid_argument "missing removed transaction id") _ h₁ in
      let (file, read, h₃) = >>=-eq-ok (read_file lib.json row) _ h₂ in
      let (made, ran, h₄) = >>=-eq-ok (file_changes lib catalog kind (count + 1) rest) _ h₃ in
      let (reports, total, bound) = file_changes_lem kind (count + 1) rest ran (ground arith) in
      subst
        (λ (r : List (TxnFileChange Value) × ℕ).
          All₂ (Reports kind) (row ∷ rest) r.0
          × (r.1 ≡ count + suc (length rest))
          × (r.1 ≤ max_files_per_query))
        (ok-injective h₄)
        (
          cons (record { kind_is = refl; id_is = id_is; read = read }) reports,
          omega (arith, total),
          bound,
        )

  schema_change_lem :
      (count : ℕ) (all : List SchemaRow) (db : Db) {result : Option TxnSchemaChange × ℕ}
      → schema_change lib catalog count (take 2 all) db ≡ ok result
      → ReportsSchema db all result.0
  unfolding schema_change
  schema_change_lem count [] db h =
      subst (λ (r : Option TxnSchemaChange × ℕ). ReportsSchema db [] r.0) (ok-injective h) unchanged
  schema_change_lem count (row ∷ []) db h =
      let (few, h₁) =
        guard-eq-ok (not (ltb max_schema_changes_per_scan (count + 1)))
          (limit_exceeded "schema change events exceed limit of {}") _ h in
      let (columns, loaded, h₂) =
        >>=-eq-ok
          (load_columns lib.ipc "schema change column count exceeds limit of {}" row.schema_uuid db)
          _ h₁ in
      subst (λ (r : Option TxnSchemaChange × ℕ). ReportsSchema db (row ∷ []) r.0) (ok-injective h₂)
        (changed loaded)
  schema_change_lem count (row ∷ second ∷ rest) db h = absurd (ground arith)

  -- The event reports its transaction in full.
  pub record EventOf (table_uuid : Uuid) (db : Db) (id : TxnId) (e : TxnEvent Value) : Type 0 where
    pub id_is : e.transaction_id ≡ id
    pub adds : List (TxnFileChange Value)
    pub removes : List (TxnFileChange Value)
    pub changes : e.file_changes ≡ adds ++ removes
    pub reports_added : All₂ (Reports added) (all_added table_uuid id db) adds
    pub reports_removed : All₂ (Reports removed) (all_removed table_uuid id db) removes
    pub reports_schema : ReportsSchema db (all_schemas table_uuid id db) e.schema_change

  -- The counters of a range stay within the limit.
  abbrev Within : Counts → Type 0
  Within counts =
      (counts.added_file_events ≤ max_files_per_query)
      × (counts.removed_file_events ≤ max_files_per_query)

  event_lem :
      (table_uuid : Uuid) (id : TxnId) (counts : Counts) (db : Db)
      {result : TxnEvent Value × Counts}
      → event lib catalog table_uuid id counts db ≡ ok result
      → Within counts
      → EventOf table_uuid db id result.0 × Within result.1
  unfolding event added_rows removed_rows schema_rows
  event_lem table_uuid id counts db h within =
      let (adds, ran₁, h₁) =
        >>=-eq-ok
          (file_changes lib catalog added counts.added_file_events (added_rows table_uuid id db)) _
          h in
      let (removes, ran₂, h₂) =
        >>=-eq-ok
          (file_changes lib catalog removed counts.removed_file_events
            (removed_rows table_uuid id db))
          _ h₁ in
      let (change, ran₃, h₃) =
        >>=-eq-ok
          (schema_change lib catalog counts.schema_change_events (schema_rows table_uuid id db) db)
          _ h₂ in
      let (added_reports, added_total, added_bound) =
        file_changes_lem added counts.added_file_events (added_rows table_uuid id db) ran₁
          within.0 in
      let (removed_reports, removed_total, removed_bound) =
        file_changes_lem removed counts.removed_file_events (removed_rows table_uuid id db) ran₂
          within.1 in
      let whole_added =
        take-short max_files_per_query (all_added table_uuid id db)
          (omega (arith, added_total, added_bound)) in
      let whole_removed =
        take-short max_files_per_query (all_removed table_uuid id db)
          (omega (arith, removed_total, removed_bound)) in
      subst (λ (r : TxnEvent Value × Counts). EventOf table_uuid db id r.0 × Within r.1)
        (ok-injective h₃)
        (
          record {
            id_is = refl;
            adds = adds.0;
            removes = removes.0;
            changes = refl;
            reports_added = rw whole_added at added_reports;
            reports_removed = rw whole_removed at removed_reports;
            reports_schema =
                schema_change_lem counts.schema_change_events (all_schemas table_uuid id db) db
                  ran₃;
          },
          (added_bound, removed_bound),
        )

  pub events_of_lem :
      (table_uuid : Uuid) (ids : List TxnId) (counts : Counts) (db : Db)
      {events : List (TxnEvent Value)}
      → events_of lib catalog table_uuid ids counts db ≡ ok events
      → Within counts
      → All₂ (EventOf table_uuid db) ids events
  unfolding events_of
  events_of_lem table_uuid [] counts db h within =
      subst (All₂ (EventOf table_uuid db) []) (ok-injective h) nil
  events_of_lem table_uuid (id ∷ rest) counts db h within =
      let (made, ran, h₁) = >>=-eq-ok (event lib catalog table_uuid id counts db) _ h in
      let (events, more, h₂) = >>=-eq-ok (events_of lib catalog table_uuid rest made.1 db) _ h₁ in
      let (one, within') = event_lem table_uuid id counts db ran within in
      subst (All₂ (EventOf table_uuid db) (id ∷ rest)) (ok-injective h₂)
        (cons one (events_of_lem table_uuid rest made.1 db more within'))
