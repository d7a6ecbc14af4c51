-- ===== src/Tests/Clients.antt =====
-- Two clients of the SQLite catalog, and the theorems on clients and backends applied to them.
use planar.Base.{ℕ, String, ◌≡◌, ◌≢◌, refl, some, none, List, [], ◌∷◌, map, arith}
use planar.Base.Chunks.{chunks, concat}
use planar.Base.Eq.{contains}
use planar.Base.Except.{ok, ◌>>=◌}
use planar.Json.{
  parse_table_properties, parse_json, from_json, serialize_json, serialize_json_optional,
}
use planar.Limits.{postgres}
use planar.Storage.{as_str}
use planar.Storage.Options.{validate_format_options, parse_parquet_options}
use planar.Spec.{is_blank, validate_file, validate_mutation}
use planar.Spec.Builders.{with_format_options_checked, with_format_options_checked_lem}
use planar.Db.{
  Db, find, find_table, insert_rows, insert_transaction, insert_files, set_head,
  set_properties_text, update_table,
}
use planar.Catalog.{ensure_writer_protocol_compatible}
use planar.Catalog.Append.{apply_append}
use planar.Catalog.Commit.{apply_op, apply_ops}
use planar.Catalog.Commit
use planar.Catalog.Read.{current_transaction_id}
use planar.Backends.Optimistic.{sqlite_catalog-IsOptimistic}
use planar.Backends.Parameters.{placeholders-rows, placeholders-deleted, inserted}
use planar.Backends.Placeholders.{
  column_placeholders, file_placeholders, delete_placeholders, assign, bound,
}
use planar.Backends.Sqlite.{sqlite_catalog}
use planar.Client.{TableHandle, MutationBuilder}
use planar.Client.Builder
use planar.Client.Chain.{append_one, operation, chain, call, commit-chain}
use planar.Client.Conflict.{commit-write}
use planar.Client.Handle
use planar.Tests.Data.{
  text_json, plain_text, toy_libraries, toy_catalog, call as env_of, events_ident, start_db,
  new_file, file_row, next_db,
}

abbrev six : List ℕ
six = 1 ∷ 2 ∷ 3 ∷ 4 ∷ 5 ∷ 6 ∷ []

abbrev nine : List ℕ
nine = 1 ∷ 2 ∷ 3 ∷ 4 ∷ 5 ∷ 6 ∷ 7 ∷ 8 ∷ 9 ∷ []

placeholders-rows_example :
    (inserted (column_placeholders postgres 2) (concat (six ∷ six ∷ []))
      ≡ map (map some) (six ∷ six ∷ []))
    × (inserted (file_placeholders postgres 1) (concat (nine ∷ [])) ≡ map (map some) (nine ∷ []))
placeholders-rows_example =
    placeholders-rows postgres (six ∷ six ∷ []) (nine ∷ []) (refl, (refl, tt)) (refl, tt)

abbrev four : List ℕ
four = 2 ∷ 100 ∷ 7 ∷ 8 ∷ []

placeholders-deleted_example :
    map (bound four) (assign 0 (delete_placeholders postgres 2)) ≡ map some four
placeholders-deleted_example = placeholders-deleted postgres 2 100 (7 ∷ 8 ∷ [])

abbrev handle : TableHandle Db String String
handle = record {
  catalog = sqlite_catalog toy_libraries toy_catalog.client_protocol;
  ident = events_ident;
}

commit-chain_example :
    (Handle.write handle (some 1) start_db >>= λ builder.
    Builder.commit (env_of 2 500) (chain (append_one new_file ∷ []) builder) start_db)
    ≡ handle.catalog.commit
        (env_of 2 500)
        handle.ident
        1
        (record { operations = map operation (append_one new_file ∷ []) })
        start_db
commit-chain_example = commit-chain handle 1 (append_one new_file ∷ []) (env_of 2 500) start_db

abbrev opened : MutationBuilder Db String String
opened = record {
  catalog = handle.catalog;
  ident = events_ident;
  base_transaction_id = 1;
  mutation = record { operations = [] };
}

opened_run : Handle.write handle none start_db ≡ ok opened
unfolding Handle.write Builder.new sqlite_catalog current_transaction_id find_table find
opened_run = refl

-- The table after the first client's commit.
abbrev first_db : Db
first_db = record next_db { files = file_row 7 1 ∷ file_row 8 2 ∷ [] }

first_run :
    Builder.commit (env_of 2 500) (chain (append_one new_file ∷ []) opened) start_db
    ≡ ok (first_db, record { transaction_id = 2; table_view = none })
unfolding Builder.commit Builder.append_file chain call sqlite_catalog Commit.commit
    validate_mutation contains find_table find parse_table_properties parse_json from_json
    ensure_writer_protocol_compatible insert_transaction insert_rows apply_ops apply_op apply_append
    chunks validate_file is_blank serialize_json_optional serialize_json insert_files update_table
    set_head set_properties_text as_str
first_run = refl

two_not_one : ◌≢◌ {A = ℕ} 2 1
two_not_one e = absurd (omega (arith, e))

commit-write_example :
    (Builder.commit (env_of 3 600) (chain (append_one new_file ∷ []) opened) first_db
      ≢ ok (start_db, record { transaction_id = 3; table_view = none }))
    × (Handle.write handle none first_db ≡ ok (Builder.new handle.catalog handle.ident 2))
commit-write_example =
    commit-write handle (sqlite_catalog-IsOptimistic toy_libraries toy_catalog.client_protocol)
      opened opened (append_one new_file ∷ []) (append_one new_file ∷ []) (env_of 2 500)
      (env_of 3 600) start_db first_db (record { transaction_id = 2; table_view = none })
      (start_db, record { transaction_id = 3; table_view = none }) opened_run opened_run first_run
      two_not_one

checked_run :
    with_format_options_checked text_json plain_text new_file "{}"
    ≡ ok (record new_file { format_options = some "{}" })
unfolding with_format_options_checked validate_format_options parse_parquet_options as_str
checked_run = refl

with_format_options_checked_lem_example :
    validate_file text_json plain_text (record new_file { format_options = some "{}" })
    ≡ validate_file text_json plain_text (record new_file { format_options = none })
with_format_options_checked_lem_example =
    with_format_options_checked_lem text_json plain_text new_file
      (record new_file { format_options = some "{}" }) "{}" checked_run
