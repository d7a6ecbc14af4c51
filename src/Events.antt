-- ===== src/Events.antt =====
-- catalog/mod.rs: `list_transaction_events` and `diff_table`.
pub mod Content
pub mod Range
use planar.Base.{
  ℕ, ◌+◌, String, Bool, false, not, ◌&&◌, Option, none, some, List, [], ◌∷◌, ◌++◌, ltb, any, take,
  filter, ◌==◌, if◌then◌else◌,
}
use mathlib.Core.List.{reverse}
use planar.Base.Except.{ok, err, guard, ok_or, ◌>>=◌, ◌>>◌}
use planar.Error.{Result, not_found, invalid_argument, limit_exceeded}
use planar.Limits.{max_files_per_query, max_schema_changes_per_scan}
use planar.Spec.{Uuid, TxnId, TableIdent}
use planar.Db.{Db, SchemaRow, FileRow, find_table}
use planar.Catalog.{Libraries, SqlCatalog}
use planar.Catalog.Chain.{txn_ids_desc}
use planar.Catalog.Rows.{load_columns, read_file}
use planar.Catalog.Read.{read_table}
use planar.Delta.{
  TxnFileChangeKind, added, removed, TxnFileChange, TxnSchemaChange, TxnEvent, TableDelta,
  project_delta_range,
}

-- `TxnRangeCursor`
pub record TxnRangeCursor : Type 0 where
  pub from_exclusive : Option TxnId
  pub to_inclusive : TxnId

-- The three counters that bound a whole range.
pub record Counts : Type 0 where
  pub added_file_events : ℕ
  pub removed_file_events : ℕ
  pub schema_change_events : ℕ

abbrev ends_in : TxnId → Option TxnId → Bool
ends_in id none = false
ends_in id (some end) = end == id

-- WHERE table_uuid = ? AND added_in_transaction_id = ? LIMIT max + 1
unfoldable pub added_rows : Uuid → TxnId → Db → List FileRow
added_rows table_uuid id db =
    take (max_files_per_query + 1)
      (filter (λ f. f.table_uuid == table_uuid && f.added_in_transaction_id == id) db.files)

-- WHERE table_uuid = ? AND removed_in_transaction_id = ? LIMIT max + 1
unfoldable pub removed_rows : Uuid → TxnId → Db → List FileRow
removed_rows table_uuid id db =
    take (max_files_per_query + 1)
      (filter (λ f. f.table_uuid == table_uuid && ends_in id f.removed_in_transaction_id) db.files)

-- WHERE table_uuid = ? AND valid_from_transaction_id = ? LIMIT 2
unfoldable pub schema_rows : Uuid → TxnId → Db → List SchemaRow
schema_rows table_uuid id db =
    take 2
      (filter (λ s. s.table_uuid == table_uuid && s.valid_from_transaction_id == id) db.schemas)

abbrev event_id : TxnFileChangeKind → FileRow → Option TxnId
event_id added row = some row.added_in_transaction_id
event_id removed row = row.removed_in_transaction_id

abbrev overflow_message : TxnFileChangeKind → String
overflow_message added = "added file events exceed limit of {}"
overflow_message removed = "removed file events exceed limit of {}"

module _ {Value Map : Type 0} (lib : Libraries Value Map) (catalog : SqlCatalog) where
  -- The loop over the added or the removed rows of one transaction, with its counter.
  unfoldable pub file_changes :
      TxnFileChangeKind → ℕ → List FileRow → Result (List (TxnFileChange Value) × ℕ)
  file_changes kind count [] = ok ([], count)
  file_changes kind count (row ∷ rest) = do
    guard (not (ltb max_files_per_query (count + 1))) (limit_exceeded (overflow_message kind))
    id ← ok_or (event_id kind row) (invalid_argument "missing removed transaction id")
    file ← read_file lib.json row
    (changes, count') ← file_changes kind (count + 1) rest
    ok (record { transaction_id = id; kind = kind; file = file } ∷ changes, count')

  unfoldable pub schema_change : ℕ → List SchemaRow → Db → Result (Option TxnSchemaChange × ℕ)
  schema_change count [] db = ok (none, count)
  schema_change count (row ∷ []) db = do
    guard (not (ltb max_schema_changes_per_scan (count + 1)))
        (limit_exceeded "schema change events exceed limit of {}")
    columns ←
        load_columns lib.ipc "schema change column count exceeds limit of {}" row.schema_uuid db
    let change : TxnSchemaChange = record {
      transaction_id = row.valid_from_transaction_id;
      schema = record { row = row; columns = columns };
    }
    ok (some change, count + 1)
  schema_change count (row ∷ second ∷ rest) db =
      err (invalid_argument "multiple schemas found for the same transaction")

  -- One round of the loop over the transactions.
  unfoldable pub event : Uuid → TxnId → Counts → Db → Result (TxnEvent Value × Counts)
  unfolding file_changes schema_change
  event table_uuid id counts db = do
    (adds, n) ← file_changes added counts.added_file_events (added_rows table_uuid id db)
    (removes, m) ← file_changes removed counts.removed_file_events (removed_rows table_uuid id db)
    (change, k) ← schema_change counts.schema_change_events (schema_rows table_uuid id db) db
    ok (
      record { transaction_id = id; file_changes = adds ++ removes; schema_change = change },
      record { added_file_events = n; removed_file_events = m; schema_change_events = k },
    )

  unfoldable pub events_of : Uuid → List TxnId → Counts → Db → Result (List (TxnEvent Value))
  unfolding event
  events_of table_uuid [] counts db = ok []
  events_of table_uuid (id ∷ rest) counts db = do
    (e, counts') ← event table_uuid id counts db
    events ← events_of table_uuid rest counts' db
    ok (e ∷ events)

  abbrev pub no_counts : Counts
  no_counts = record { added_file_events = 0; removed_file_events = 0; schema_change_events = 0 }

  unfoldable pub check_exists : Db → Uuid → TxnId → TxnId → Result (Unit {0})
  check_exists db table_uuid current to =
      if current == to
      then ok tt
      else guard (any (λ t. t.table_uuid == table_uuid && t.transaction_id == to) db.transactions)
          (invalid_argument "requested transaction does not exist for table")

  unfoldable pub list_transaction_events :
      TableIdent → TxnRangeCursor → Db → Result (List (TxnEvent Value))
  unfolding check_exists
  list_transaction_events ident cursor db = do
    row ← ok_or (find_table ident db) (not_found "{}.{}")
    current ← ok_or row.current_transaction_id (invalid_argument "table has no current transaction")
    check_exists db row.table_uuid current cursor.to_inclusive
    ids ← txn_ids_desc db row.table_uuid cursor.from_exclusive cursor.to_inclusive
    events_of row.table_uuid (reverse ids) no_counts db

  -- `diff_table`
  unfoldable pub diff_table : TableIdent → TxnId → TxnId → Db → Result (TableDelta Value Map)
  diff_table ident from to db = do
    events ←
        list_transaction_events ident (record { from_exclusive = some from; to_inclusive = to }) db
    from_view ← read_table lib catalog ident (some from) db
    to_view ← read_table lib catalog ident (some to) db
    let new_schema =
        if from_view.schema.schema_uuid == to_view.schema.schema_uuid
        then none
        else some to_view.schema
    let new_properties =
        if lib.json.map_eq from_view.properties to_view.properties
        then none
        else some to_view.properties
    ok (project_delta_range from to events new_schema new_properties)
