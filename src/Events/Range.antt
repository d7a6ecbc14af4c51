-- ===== src/Events/Range.antt =====
-- The results of `list_transaction_events` and `diff_table`.
use planar.Base.{
  ◌≡◌, Option, some, none, List, true, All₂, arith, ◌∙◌, sym, ap, if◌then◌else◌, some-injective,
  ◌≤◌, length,
}
use mathlib.Core.List.{reverse}
use mathlib.Core.Path.{subst}
use planar.Base.Except.{ok, ok-injective, >>=-eq-ok, ok_or-eq-ok}
use planar.Error.{not_found, invalid_argument}
use planar.Json.{parse_table_properties}
use planar.Limits.{max_transactions_per_scan}
use planar.Spec.{TxnId, TableIdent}
use planar.Db.{Db, TableRow, find_table}
use planar.Catalog.{Libraries, SqlCatalog, ensure_reader_protocol_compatible}
use planar.Catalog.Chain.{txn_ids_desc}
use planar.Catalog.Chain.Lineage.{Lineage, txn_ids_desc-Lineage}
use planar.Catalog.Read.{TableView, read_table, check_history, unwrap_or}
use planar.Catalog.Rows.{schema_at, load_columns, load_files}
use planar.Delta.{TxnEvent, TableDelta, project_delta_range}
use planar.Events.{TxnRangeCursor, check_exists, no_counts, list_transaction_events, diff_table}
use planar.Events.Content.{EventOf, events_of_lem}

module _ {Value Map : Type 0} (lib : Libraries Value Map) (catalog : SqlCatalog) where
  -- A successful `list_transaction_events` reports the whole range: the transactions are the line of
  -- parents from the upper end of the cursor, included, down to the lower end, not included, or to
  -- the first transaction of the table; there is one event for each, the oldest first, and it
  -- reports every file that the transaction added or removed and the schema that it made, if any.
  pub list_transaction_events-Lineage :
      (ident : TableIdent) (cursor : TxnRangeCursor) (db : Db) (row : TableRow)
      (events : List (TxnEvent Value))
      → find_table ident db ≡ some row
      → list_transaction_events lib catalog ident cursor db ≡ ok events
      → (ids : List TxnId) × Lineage db row.table_uuid cursor.from_exclusive cursor.to_inclusive ids
        × (length ids ≤ max_transactions_per_scan)
        × All₂ (EventOf lib catalog row.table_uuid db) (reverse ids) events
  unfolding list_transaction_events
  list_transaction_events-Lineage ident cursor db row events found h =
      let (row₁, found₁, h₁) = ok_or-eq-ok (find_table ident db) (not_found "{}.{}") _ h in
      let (current, _, h₂) =
        ok_or-eq-ok row₁.current_transaction_id
          (invalid_argument "table has no current transaction") _ h₁ in
      let (_, _, h₃) =
        >>=-eq-ok (check_exists lib catalog db row₁.table_uuid current cursor.to_inclusive) _ h₂ in
      let (ids, ran, h₄) =
        >>=-eq-ok (txn_ids_desc db row₁.table_uuid cursor.from_exclusive cursor.to_inclusive) _
          h₃ in
      let (line, few) =
        txn_ids_desc-Lineage db row₁.table_uuid cursor.from_exclusive cursor.to_inclusive ran in
      let reports =
        events_of_lem lib catalog row₁.table_uuid (reverse ids) (no_counts lib catalog) db h₄
          (omega arith, omega arith) in
      let same : row₁ ≡ row = some-injective (sym found₁ ∙ found) in
      subst
        (λ (r : TableRow).
          (ids : List TxnId) × Lineage db r.table_uuid cursor.from_exclusive cursor.to_inclusive ids
          × (length ids ≤ max_transactions_per_scan)
          × All₂ (EventOf lib catalog r.table_uuid db) (reverse ids) events)
        same (ids, line, few, reports)

  -- A read at any transaction returns the current properties of the table.
  read_table-properties :
      (ident : TableIdent) (at : Option TxnId) (db : Db) {view : TableView Value Map}
      → read_table lib catalog ident at db ≡ ok view
      → (row : TableRow) × (find_table ident db ≡ some row)
        × (parse_table_properties lib.json row.properties ≡ ok view.properties)
  unfolding read_table
  read_table-properties ident at db h =
      let (row, found, h₁) = ok_or-eq-ok (find_table ident db) (not_found "{}.{}") _ h in
      let (map, parsed, h₂) = >>=-eq-ok (parse_table_properties lib.json row.properties) _ h₁ in
      let (_, _, h₃) =
        >>=-eq-ok (ensure_reader_protocol_compatible catalog ident row.min_reader_version) _ h₂ in
      let (current, _, h₄) =
        ok_or-eq-ok row.current_transaction_id (invalid_argument "table has no current transaction")
          _ h₃ in
      let effective = unwrap_or at current in
      let (_, _, h₅) = >>=-eq-ok (check_history db row.table_uuid effective current) _ h₄ in
      let (schema, _, h₆) =
        ok_or-eq-ok (schema_at row.table_uuid effective db)
          (not_found "no schema for {}.{} at transaction {}") _ h₅ in
      let (columns, _, h₇) =
        >>=-eq-ok (load_columns lib.ipc "column count exceeds limit of {}" schema.schema_uuid db) _
          h₆ in
      let (files, _, h₈) = >>=-eq-ok (load_files lib.json row.table_uuid effective db) _ h₇ in
      (row, found, parsed ∙ ap (λ (v : TableView Value Map). ok v.properties) (ok-injective h₈))

  -- Two successful reads of a table return the same properties, at whatever transactions.
  read_table-read_table :
      (ident : TableIdent) (from to : Option TxnId) (db : Db) {old new : TableView Value Map}
      → read_table lib catalog ident from db ≡ ok old
      → read_table lib catalog ident to db ≡ ok new
      → old.properties ≡ new.properties
  read_table-read_table ident from to db ran₁ ran₂ =
      let (row₁, found₁, parsed₁) = read_table-properties ident from db ran₁ in
      let (row₂, found₂, parsed₂) = read_table-properties ident to db ran₂ in
      let same : row₁ ≡ row₂ = some-injective (sym found₁ ∙ found₂) in
      ok-injective (
        sym parsed₁
        ∙ ap (λ (r : TableRow). parse_table_properties lib.json r.properties) same
        ∙ parsed₂)

  -- A successful `diff_table` never reports new properties, whatever happened to them in the range,
  -- if a map compares as equal to itself: both reads return the current properties.
  pub diff_table-properties :
      (ident : TableIdent) (from to : TxnId) (db : Db) (delta : TableDelta Value Map)
      → ((map : Map) → lib.json.map_eq map map ≡ true)
      → diff_table lib catalog ident from to db ≡ ok delta
      → delta.new_properties ≡ none
  unfolding diff_table project_delta_range
  diff_table-properties ident from to db delta reflexive h =
      let (events, _, h₁) =
        >>=-eq-ok
          (list_transaction_events lib catalog ident
            (record { from_exclusive = some from; to_inclusive = to }) db)
          _ h in
      let (old, ran₁, h₂) = >>=-eq-ok (read_table lib catalog ident (some from) db) _ h₁ in
      let (new, ran₂, h₃) = >>=-eq-ok (read_table lib catalog ident (some to) db) _ h₂ in
      let same = read_table-read_table ident (some from) (some to) db ran₁ ran₂ in
      let equal : lib.json.map_eq old.properties new.properties ≡ true =
        rw same (reflexive new.properties) in
      sym (ap (λ (d : TableDelta Value Map). d.new_properties) (ok-injective h₃))
      ∙ ap (λ b. if b then none else some new.properties) equal
