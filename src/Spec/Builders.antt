-- ===== src/Spec/Builders.antt =====
-- catalog/models.rs: the constructors and builder methods of the specifications, of table
-- identifiers, properties and property keys.
use planar.Base.{String, ◌≡◌, refl, true, false, not, none, some, List, [], ◌∷◌, ◌++◌}
use planar.Base.Int.{ℤ}
use planar.Base.Except.{ok, guard, map_err, ◌>>◌, >>=-eq-ok, map_err-eq-ok, ok-injective}
use planar.Error.{Result, invalid_argument}
use planar.DataType.{DataType}
use planar.Json.{Json, from_json}
use planar.Storage.{Format, TextOps, as_str}
use planar.Storage.Options.{validate_format_options}
use planar.Storage.Options.Objects.{validate_format_options-object}
use planar.Spec.{
  Uuid, TableIdent, ColumnSpec, SchemaSpec, FileSpec, is_blank, to_catalog, validate_file,
  check_format_options,
}

-- `TableIdent::new`
abbrev pub new_ident : String → String → TableIdent
new_ident namespace name = record { namespace = namespace; name = name }

-- `PropertyKey::new`
unfoldable pub property_key : String → Result String
property_key key = do
  guard (not (is_blank key)) (invalid_argument "property key cannot be empty")
  ok key

-- `ColumnSpec::new` and `nullable`
abbrev pub new_column : String → DataType → ColumnSpec
new_column name column_type = record { name = name; column_type = column_type; is_nullable = false }

abbrev pub nullable : ColumnSpec → ColumnSpec
nullable self = record self { is_nullable = true }

-- `SchemaSpec::new`, `with_column` and `with_columns`
abbrev pub new_schema : SchemaSpec
new_schema = record { columns = [] }

abbrev pub with_column : SchemaSpec → ColumnSpec → SchemaSpec
with_column self column = record self { columns = self.columns ++ column ∷ [] }

abbrev pub with_columns : SchemaSpec → List ColumnSpec → SchemaSpec
with_columns self columns = record self { columns = self.columns ++ columns }

module _ {Value : Type 0} where
  -- `FileSpec::new` and its setters
  abbrev pub new_file : Format → String → ℤ → ℤ → FileSpec Value
  new_file file_format file_path record_count file_size_bytes = record {
    file_uuid = none;
    file_format = file_format;
    file_path = file_path;
    record_count = record_count;
    file_size_bytes = file_size_bytes;
    partition_values = none;
    format_options = none;
  }

  abbrev pub with_uuid : FileSpec Value → Uuid → FileSpec Value
  with_uuid self uuid = record self { file_uuid = some uuid }

  abbrev pub with_partition_values : FileSpec Value → Value → FileSpec Value
  with_partition_values self values = record self { partition_values = some values }

  abbrev pub with_format_options : FileSpec Value → Value → FileSpec Value
  with_format_options self options = record self { format_options = some options }

module _ {Value Map : Type 0} (json : Json Value Map) where
  -- `TableProperties::into_json` and `to_json`, on the map that the properties are.
  abbrev pub to_json : Map → Value
  to_json properties = json.object properties

  -- `TableProperties::remove`
  abbrev pub remove : Map → String → Map
  remove properties key = json.remove properties key

  -- `TryFrom<serde_json::Value> for TableProperties`
  abbrev pub try_from : Value → Result Map
  try_from value = from_json json value

  module _ (text : TextOps) where
    unfoldable pub with_format_options_checked : FileSpec Value → Value → Result (FileSpec Value)
    with_format_options_checked self options = do
      map_err to_catalog (validate_format_options json text (as_str self.file_format) options)
      ok (with_format_options self options)

    -- Options that were checked when they were set never make a file invalid: after a successful
    -- `with_format_options_checked`, `validate` gives the same result or error for the file as for
    -- the file without format options.
    pub with_format_options_checked_lem :
        (self self' : FileSpec Value) (options : Value)
        → with_format_options_checked self options ≡ ok self'
        → validate_file json text self'
          ≡ validate_file json text (record self { format_options = none })
    unfolding with_format_options_checked validate_file check_format_options
    with_format_options_checked_lem self self' options h =
        let checked = validate_format_options json text (as_str self.file_format) options in
        let (_, ran, e) = >>=-eq-ok (map_err to_catalog checked) _ h in
        let valid : checked ≡ ok tt = map_err-eq-ok to_catalog checked ran in
        let (map, object) =
          validate_format_options-object json text (as_str self.file_format) options valid in
        rw (← ok-injective e) (rw (object, valid) refl)
