-- ===== src/Tests/Histories.antt =====
-- A run of two calls from the empty database, and the theorems on runs applied to it.
use planar.Base.{◌≡◌, ◌≢◌, ◌↔◌, String, Bool, true, refl, some, none, [], ◌∷◌, arith}
use planar.Base.Chunks.{chunks}
use planar.Base.Eq.{contains, nat_eq}
use planar.Base.Except.{ok, ◌>>=◌}
use planar.Json.{
  parse_table_properties, parse_json, from_json, serialize_json, serialize_json_optional,
}
use planar.Storage.{as_str}
use planar.Spec.{Mutation, append_files, is_blank, validate_file, validate_mutation}
use planar.Db.{
  Db, TransactionRow, find, find_table, insert_rows, insert_transaction, insert_files, set_head,
  set_properties_text, update_table,
}
use planar.Catalog.{ensure_writer_protocol_compatible}
use planar.Catalog.Append.{apply_append}
use planar.Catalog.Chain.{is_ancestor}
use planar.Catalog.Chain.Lineage.{Ancestor}
use planar.Catalog.Commit.{apply_op, apply_ops, finish, commit}
use planar.Catalog.Commit.Refinement.{Steps}
use planar.Catalog.Create.RoundTrip.{first_view}
use planar.Catalog.Read.{read_table, drop_table}
use planar.Catalog.Rows.{files_at}
use planar.History.{Step, creates, commits, Run, rest, then_step}
use planar.History.Reachable.{
  Run-WellFormed, Run-drop_table, Run-is_ancestor, Run-commit, Run-create_table,
}
use planar.History.Progress.{Run-commit-head}
use planar.Catalog.Commit.Effect.{start_work}
use planar.History.WellFormed.{WellFormed}
use planar.Tests.Data.{
  toy_libraries, toy_catalog, call, events_ident, one_column, empty_db, table_row, root_row,
  file_row, new_file,
}
use planar.Tests.Tables.{created_db, create_run, json_round_trips}

abbrev append_file : Mutation String String
append_file = record { operations = append_files (new_file ∷ []) ∷ [] }

abbrev child_row : TransactionRow
child_row = record root_row { transaction_id = 2; parent_transaction_id = some 1 }

-- The table with one file, as transaction 2.
abbrev appended_db : Db
appended_db = record created_db {
  tables = record table_row { current_transaction_id = some 2 } ∷ [];
  transactions = root_row ∷ child_row ∷ [];
  files = file_row 8 2 ∷ [];
}

append_run :
    commit toy_libraries toy_catalog (call 2 500) events_ident 1 append_file created_db
    ≡ ok (appended_db, 2)
unfolding commit validate_mutation contains find_table find parse_table_properties parse_json
    from_json ensure_writer_protocol_compatible insert_transaction insert_rows apply_ops apply_op
    apply_append chunks validate_file is_blank serialize_json_optional serialize_json insert_files
    update_table set_head set_properties_text as_str
append_run = refl

first_call : Run toy_libraries empty_db created_db
first_call =
    then_step rest
      (creates toy_catalog (call 1 100) events_ident "/data" one_column none tt create_run)

second_call : Step toy_libraries created_db appended_db
second_call =
    commits toy_catalog (call 2 500) events_ident 1 append_file 2 (omega arith, tt) append_run

created_found : find_table events_ident created_db ≡ some table_row
unfolding find_table find
created_found = refl

Run-WellFormed_example : WellFormed appended_db
Run-WellFormed_example = Run-WellFormed toy_libraries appended_db (then_step first_call second_call)

Run-drop_table_example : drop_table events_ident appended_db ≢ ok empty_db
Run-drop_table_example =
    Run-drop_table toy_libraries events_ident appended_db empty_db
      (then_step first_call second_call)

Run-is_ancestor_example :
    (answer : Bool) × (is_ancestor created_db 100 1 1 ≡ ok answer)
    × ((answer ≡ true) ↔ Ancestor created_db 100 1 1)
Run-is_ancestor_example =
    Run-is_ancestor toy_libraries events_ident created_db table_row 1 1 first_call created_found
      refl

Run-commit_example :
    Steps toy_libraries
      (call 2 500)
      100
      append_file.operations
      (files_at 100 1 created_db)
      (files_at 100 2 appended_db)
Run-commit_example =
    Run-commit toy_libraries toy_catalog (call 2 500) events_ident 1 append_file created_db
      appended_db 2 table_row first_call (omega arith, tt) created_found append_run

-- The call that appends the file meets the conditions of a commit that gets through.
append_valid : validate_mutation append_file ≡ ok tt
unfolding validate_mutation contains
append_valid = refl

created_properties : parse_table_properties toy_libraries.json table_row.properties ≡ ok ""
unfolding parse_table_properties parse_json from_json
created_properties = refl

writer_allowed :
    ensure_writer_protocol_compatible toy_catalog events_ident table_row.min_writer_version ≡ ok tt
unfolding ensure_writer_protocol_compatible
writer_allowed = refl

Run-commit-head_example :
    commit toy_libraries toy_catalog (call 2 500) events_ident 1 append_file created_db ≡ (
      apply_ops toy_libraries toy_catalog
        (call 2 500)
        100
        table_row.current_schema_uuid
        append_file.operations
        (start_work toy_libraries toy_catalog (call 2 500) created_db table_row "" 1)
      >>= finish toy_libraries toy_catalog (call 2 500) table_row
      >>= λ db'. ok (db', 2))
Run-commit-head_example =
    Run-commit-head toy_libraries toy_catalog (call 2 500) events_ident 1 append_file created_db
      table_row "" first_call (omega arith, tt) created_found refl refl refl append_valid
      created_properties writer_allowed

Run-create_table_example :
    read_table toy_libraries toy_catalog events_ident none created_db
    ≡ ok (
        first_view toy_libraries toy_catalog
          (call 1 100)
          events_ident
          "/data"
          one_column
          none
          empty_db)
Run-create_table_example =
    Run-create_table toy_libraries toy_catalog (call 1 100) events_ident "/data" one_column none
      empty_db created_db rest create_run (omega arith) (refl, tt) json_round_trips
