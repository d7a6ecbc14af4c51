-- ===== src/Tests/Specs.antt =====
-- The theorems on types, limits, JSON, options and specifications, applied to concrete values.
use planar.Base.{
  ℕ, ◌≡◌, ◌↔◌, ◌≤◌, ◌<◌, ◌%◌, ◌^◌, refl, some, true, false, List, [], ◌∷◌, length, arith, All,
}
use planar.Base.Chunks.{chunks}
use planar.Base.Eq.{Distinct, string_eq}
use planar.Base.Except.{ok}
use planar.DataType.{int8, int16, int32, can_evolve_to}
use planar.DataType.Order.{family, rank, can_evolve_to_iff, can_evolve_to_trans}
use planar.Json.{parse_json_optional, serialize_json}
use planar.Json.Bounds.{parse-serialize}
use planar.Limits.{
  sqlite, max_columns_per_schema, max_json_size_bytes, db_bind_limit, column_insert_bind_count,
  file_insert_bind_count, delete_files_bind_count, batch_insert_columns_chunk,
  batch_insert_files_chunk, batch_delete_files_chunk,
}
use planar.Limits.Bounds.{bind_counts-within}
use planar.Spec.{is_blank, validate_schema, validate_mutation}
use planar.Spec.Validation.{names, validate_schema_iff}
use planar.Spec.Mutations.{schema_updates, property_sets, NoRepeats, validate_mutation_iff}
use planar.Tests.Data.{text_json, one_column, replace_file}
use Prim.Native.String.{len}

evolves_once : can_evolve_to int8 int16 ≡ true
unfolding can_evolve_to
evolves_once = refl

evolves_twice : can_evolve_to int16 int32 ≡ true
unfolding can_evolve_to
evolves_twice = refl

stays : can_evolve_to int8 int8 ≡ true
unfolding can_evolve_to
stays = refl

can_evolve_to_iff_example :
    (can_evolve_to int8 int16 ≡ true) ↔ ((family int8 ≡ family int16) × (rank int8 ≤ rank int16))
can_evolve_to_iff_example = can_evolve_to_iff int8 int16

can_evolve_to_trans_example : can_evolve_to int8 int32 ≡ true
can_evolve_to_trans_example = can_evolve_to_trans int8 int16 int32 evolves_once evolves_twice

written : serialize_json text_json "abc" ≡ ok "abc"
unfolding serialize_json
written = refl

parse-serialize_example :
    (len "abc" ≤ max_json_size_bytes)
    × (parse_json_optional text_json (some "abc") ≡ ok (some "abc"))
parse-serialize_example = parse-serialize text_json "abc" "abc" written refl (omega arith)

abbrev three : List ℕ
three = 1 ∷ 2 ∷ 3 ∷ []

bind_counts-within_example :
    All
      (λ c. column_insert_bind_count (length c) ≤ db_bind_limit sqlite)
      (chunks (batch_insert_columns_chunk sqlite) three)
    × All
        (λ c. file_insert_bind_count (length c) ≤ db_bind_limit sqlite)
        (chunks batch_insert_files_chunk three)
    × All
        (λ c. delete_files_bind_count (length c) ≤ db_bind_limit sqlite)
        (chunks batch_delete_files_chunk three)
bind_counts-within_example = bind_counts-within sqlite three three three

validate_schema_iff_example : (validate_schema one_column ≡ ok tt) ↔ (
    (0 < length one_column.columns)
    × (length one_column.columns % 2 ^ 32 ≤ max_columns_per_schema)
    × All (λ c. is_blank c.name ≡ false) one_column.columns
    × Distinct (names one_column.columns))
validate_schema_iff_example = validate_schema_iff one_column

validate_mutation_iff_example : (validate_mutation replace_file ≡ ok tt) ↔ (
    (schema_updates replace_file.operations ≤ 1)
    × (property_sets replace_file.operations ≤ 1)
    × All NoRepeats replace_file.operations)
validate_mutation_iff_example = validate_mutation_iff replace_file
