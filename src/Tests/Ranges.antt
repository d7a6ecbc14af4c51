-- ===== src/Tests/Ranges.antt =====
-- The range of one commit, and the theorems on histories and ranges applied to it.
use planar.Base.{
  ℕ, suc, ◌+◌, String, ◌≡◌, ◌≤◌, refl, Option, some, none, true, List, [], ◌∷◌, map, length, All₂,
}
use mathlib.Core.List.{reverse}
use planar.Base.Int.{pos}
use planar.Base.Eq.{contains, nat_eq}
use planar.Base.Except.{ok}
use planar.Json.{parse_json, parse_json_optional, from_json, parse_table_properties}
use planar.Limits.{max_transactions_per_scan}
use planar.Spec.{TxnId}
use planar.Db.{find, find_table}
use planar.Catalog.{ensure_reader_protocol_compatible}
use planar.Catalog.Chain.{find_transaction, walk_history, is_ancestor, collect, txn_ids_desc}
use planar.Catalog.Chain.Lineage.{Lineage}
use planar.Catalog.Chain.Fuel.{is_ancestor-fuel}
use planar.Catalog.Rows.{
  File, order_columns, read_columns, load_columns, schema_visible, schema_at, file_visible,
  files_at, read_file, read_files, load_files,
}
use planar.Catalog.Read.{check_history, read_table}
use planar.Delta.{
  added, removed, TxnEvent, TableDelta, lookup, remove, insert, apply_changes, apply_events,
  project_delta_range,
}
use planar.Delta.Net.{net, untouched, changes_of, added_of, removed_of, apply_events-net}
use planar.Events.{
  TxnRangeCursor, added_rows, removed_rows, schema_rows, file_changes, schema_change, event,
  events_of, check_exists, list_transaction_events, diff_table,
}
use planar.Events.Content.{EventOf}
use planar.Events.Range.{list_transaction_events-Lineage, diff_table-properties}
use planar.Tests.Data.{text_json, toy_libraries, toy_catalog, events_ident, table_row, next_db}
use text.Mathlib.TextEquality.{eq_iff}

abbrev file : ℕ → TxnId → Option TxnId → File String
file uuid id gone = record {
  file_uuid = uuid;
  table_uuid = 100;
  file_format = "parquet";
  file_path = "/data/file";
  record_count = pos 3;
  file_size_bytes = pos 64;
  added_in_transaction_id = id;
  removed_in_transaction_id = gone;
  partition_values = none;
  format_options = none;
}

abbrev second_event : TxnEvent String
second_event = record {
  transaction_id = 2;
  file_changes =
      record { transaction_id = 2; kind = added; file = file 8 2 none }
      ∷ record { transaction_id = 2; kind = removed; file = file 7 1 (some 2) }
      ∷ [];
  schema_change = none;
}

abbrev second_range : TxnRangeCursor
second_range = record { from_exclusive = some 1; to_inclusive = 2 }

ancestor_run : is_ancestor next_db 100 1 2 ≡ ok true
unfolding is_ancestor walk_history find contains find_transaction
ancestor_run = refl

is_ancestor-fuel_example :
    walk_history (ok true) (10 + suc (length next_db.transactions)) next_db 100 1 [] 2
    ≡ is_ancestor next_db 100 1 2
is_ancestor-fuel_example = is_ancestor-fuel next_db 100 (ok true) 10 1 2

head_found :
    find_table events_ident next_db ≡ some (record table_row { current_transaction_id = some 2 })
unfolding find_table find
head_found = refl

events_run :
    list_transaction_events toy_libraries toy_catalog events_ident second_range next_db
    ≡ ok (second_event ∷ [])
unfolding list_transaction_events find_table find check_exists txn_ids_desc collect find_transaction
    contains events_of event file_changes added_rows removed_rows schema_rows schema_change
    read_file parse_json_optional
events_run = refl

list_transaction_events-Lineage_example :
    (ids : List TxnId) × Lineage next_db 100 (some 1) 2 ids
    × (length ids ≤ max_transactions_per_scan)
    × All₂ (EventOf toy_libraries toy_catalog 100 next_db) (reverse ids) (second_event ∷ [])
list_transaction_events-Lineage_example =
    list_transaction_events-Lineage toy_libraries toy_catalog events_ident second_range next_db
      (record table_row { current_transaction_id = some 2 }) (second_event ∷ []) head_found
      events_run

abbrev second_delta : TableDelta String String
second_delta = record {
  from_transaction_id = 1;
  to_transaction_id = 2;
  added_files = file 8 2 none ∷ [];
  removed_files = file 7 1 (some 2) ∷ [];
  new_schema = none;
  new_properties = none;
}

diff_run : diff_table toy_libraries toy_catalog events_ident 1 2 next_db ≡ ok second_delta
unfolding diff_table list_transaction_events find_table find check_exists txn_ids_desc collect
    find_transaction contains events_of event file_changes added_rows removed_rows schema_rows
    schema_change read_file parse_json_optional read_table parse_table_properties parse_json
    from_json ensure_reader_protocol_compatible check_history is_ancestor walk_history schema_at
    schema_visible load_columns order_columns read_columns load_files files_at file_visible
    read_files project_delta_range apply_events apply_changes lookup remove insert
diff_run = refl

text_reflexive : (map : String) → text_json.map_eq map map ≡ true
text_reflexive map = (eq_iff map map).1 refl

diff_table-properties_example : second_delta.new_properties ≡ none
diff_table-properties_example =
    diff_table-properties toy_libraries toy_catalog events_ident 1 2 next_db second_delta
      text_reflexive diff_run

apply_events-net_example :
    let maps =
      apply_events (second_event ∷ []) (record { added_by_uuid = []; removed_by_uuid = [] }) in
    (lookup 7 maps.added_by_uuid ≡ added_of (net 7 (changes_of (second_event ∷ [])) untouched))
    × (lookup 7 maps.removed_by_uuid
        ≡ removed_of (net 7 (changes_of (second_event ∷ [])) untouched))
apply_events-net_example = apply_events-net 7 (second_event ∷ [])
