-- ===== src/Tests/Commits.antt =====
-- One commit on a table with a file, and the theorems on commits applied to it.
use planar.Base.{ℕ, ◌≡◌, ◌≢◌, refl, some, [], ◌∷◌, arith}
use planar.Base.Chunks.{chunks}
use planar.Base.Eq.{contains}
use planar.Base.Except.{ok}
use planar.Json.{
  parse_table_properties, parse_json, from_json, serialize_json, serialize_json_optional,
}
use planar.Storage.{as_str}
use planar.Spec.{is_blank, validate_file, validate_mutation}
use planar.Db.{
  find, find_table, insert_rows, insert_transaction, insert_files, mark_removed, remove_files,
  set_head, set_properties_text, update_table,
}
use planar.Catalog.{ensure_writer_protocol_compatible}
use planar.Catalog.Read.{current_transaction_id}
use planar.Catalog.Append.{apply_append}
use planar.Catalog.Delete.{apply_delete}
use planar.Catalog.Commit.{apply_op, apply_ops, commit}
use planar.Base.Int.{◌≤ℤ◌}
use planar.Catalog.Commit.Protocol.{commit-min_writer_version}
use planar.Catalog.Commit.Conflict.{commit-commit, commit-current_transaction_id}
use planar.Tests.Data.{
  toy_libraries, toy_catalog, call, events_ident, table_row, root_row, start_db, replace_file,
  next_db,
}

commit_run :
    commit toy_libraries toy_catalog (call 2 500) events_ident 1 replace_file start_db
    ≡ ok (next_db, 2)
unfolding commit validate_mutation contains find_table find parse_table_properties parse_json
    from_json ensure_writer_protocol_compatible insert_transaction insert_rows apply_ops apply_op
    apply_append chunks validate_file is_blank serialize_json_optional serialize_json insert_files
    apply_delete update_table remove_files mark_removed set_head set_properties_text as_str
commit_run = refl

table_found : find_table events_ident start_db ≡ some table_row
unfolding find_table find
table_found = refl

two_not_one : ◌≢◌ {A = ℕ} 2 1
two_not_one e = absurd (omega (arith, e))

commit-commit_example :
    commit toy_libraries toy_catalog (call 3 600) events_ident 1 replace_file next_db
    ≢ ok (start_db, 3)
commit-commit_example =
    commit-commit toy_libraries toy_catalog (call 2 500) events_ident 1 replace_file start_db
      next_db 2 toy_catalog (call 3 600) replace_file (start_db, 3) commit_run two_not_one

commit-current_transaction_id_example :
    (current_transaction_id events_ident start_db ≡ ok 1)
    × (current_transaction_id events_ident next_db ≡ ok 2)
    × (next_db.transactions
        ≡ root_row
          ∷ record {
            transaction_id = 2;
            table_uuid = 100;
            transaction_timestamp = 0;
            parent_transaction_id = some 1;
          }
          ∷ [])
commit-current_transaction_id_example =
    commit-current_transaction_id toy_libraries toy_catalog (call 2 500) events_ident 1 replace_file
      start_db next_db 2 table_row table_found commit_run

commit-min_writer_version_example :
    (table_row.min_writer_version ≤ℤ toy_catalog.client_protocol.writer)
    × (validate_mutation replace_file ≡ ok tt)
commit-min_writer_version_example =
    commit-min_writer_version toy_libraries toy_catalog (call 2 500) events_ident 1 replace_file
      start_db next_db 2 table_row table_found commit_run
