-- ===== src/Spec.antt =====
-- catalog/models.rs: table identifiers, the specifications that a client passes in, mutations, and
-- their validation.
pub mod Validation
pub mod Mutations
pub mod Builders
use planar.Base.{
  ℕ, ◌+◌, String, Bool, true, not, ◌&&◌, ◌||◌, Option, none, some, List, [], ◌∷◌, ltb, leb, length,
}
use planar.Base.Int.{ℤ, pos, ltb_ℤ, as_u32}
use planar.Base.Eq.{Eq, nat_eq, string_eq, contains}
use planar.Base.Except.{ok, guard, map_err, ok_or, ◌>>=◌, ◌>>◌}
use planar.Error.{CatalogError, Result, invalid_argument, limit_exceeded}
use planar.DataType.{DataType}
use planar.Json.{Json}
use planar.Limits.{max_columns_per_schema}
use planar.Storage.{StorageError, Format, TextOps, as_str}
use planar.Storage.Options.{validate_format_options}
use Prim.Native.Char.{code}
use Prim.Native.String.{◌++◌}

-- A UUID is the number that its 16 bytes spell, first byte first; the databases compare UUIDs as
-- byte strings, which is the order of these numbers.
abbrev pub Uuid : Type 0
Uuid = ℕ

abbrev pub TxnId : Type 0
TxnId = Uuid

pub record TableIdent : Type 0 where
  pub namespace : String
  pub name : String

pub record ColumnSpec : Type 0 where
  pub name : String
  pub column_type : DataType
  pub is_nullable : Bool

pub record SchemaSpec : Type 0 where
  pub columns : List ColumnSpec

pub record FileSpec (Value : Type 0) : Type 0 where
  pub file_uuid : Option Uuid
  pub file_format : Format
  pub file_path : String
  pub record_count : ℤ
  pub file_size_bytes : ℤ
  pub partition_values : Option Value
  pub format_options : Option Value

-- `TableProperties` is its map, and a `PropertyKey` its text.
pub data MutationOp (Value Map : Type 0) : Type 0 where
  append_files : List (FileSpec Value) → MutationOp Value Map
  delete_files : List Uuid → MutationOp Value Map
  update_schema : SchemaSpec → MutationOp Value Map
  set_properties : Map → MutationOp Value Map
  remove_properties : List String → MutationOp Value Map

pub record Mutation (Value Map : Type 0) : Type 0 where
  pub operations : List (MutationOp Value Map)

-- The code points with Unicode's White_Space property, which `str::trim` drops.
is_whitespace : ℕ → Bool
is_whitespace c =
    leb 0x9 c && leb c 0xD
    || contains (0x20 ∷ 0x85 ∷ 0xA0 ∷ 0x1680 ∷ []) c
    || leb 0x2000 c && leb c 0x200A
    || contains (0x2028 ∷ 0x2029 ∷ 0x202F ∷ 0x205F ∷ 0x3000 ∷ []) c

-- `text.trim().is_empty()`
unfoldable pub is_blank : String → Bool
unfolding is_whitespace contains
is_blank String.[] = true
is_blank (String.◌∷◌ c s) = is_whitespace (code c) && is_blank s

-- The loop of `SchemaSpec::validate`; `seen` holds the names of the columns before.
validate_columns : List String → List ColumnSpec → Result (Unit {0})
validate_columns seen [] = ok tt
validate_columns seen (column ∷ rest) = do
  guard (not (is_blank column.name)) (invalid_argument "column name cannot be empty")
  guard (not (contains seen column.name)) (invalid_argument "duplicate column name: '{}'")
  validate_columns (column.name ∷ seen) rest

-- `SchemaSpec::validate`
unfoldable pub validate_schema : SchemaSpec → Result (Unit {0})
unfolding validate_columns
validate_schema spec = do
  guard (ltb 0 (length spec.columns)) (invalid_argument "schema must include at least one column")
  guard (leb (as_u32 (length spec.columns)) max_columns_per_schema)
      (limit_exceeded "schema has {} columns, exceeds limit of {}")
  validate_columns [] spec.columns

-- The message of a `StorageError` behind its `Display` prefix.
pub to_catalog : StorageError → CatalogError
to_catalog (StorageError.io m) = invalid_argument ("IO error: " ++ m)
to_catalog (StorageError.arrow m) = invalid_argument ("Arrow error: " ++ m)
to_catalog (StorageError.parquet m) = invalid_argument ("Parquet error: " ++ m)
to_catalog (StorageError.lance m) = invalid_argument ("Lance error: " ++ m)
to_catalog (StorageError.vortex m) = invalid_argument ("Vortex error: " ++ m)
to_catalog (StorageError.invalid_input m) = invalid_argument ("Invalid input: " ++ m)
to_catalog (StorageError.not_yet_implemented m) =
    invalid_argument ("Feature not yet implemented: " ++ m)
to_catalog (StorageError.unsupported m) = invalid_argument ("Unsupported operation: " ++ m)

abbrev is_negative : ℤ → Bool
is_negative n = ltb_ℤ n (pos 0)

-- The loop over the UUIDs of a `DeleteFiles` and over the keys of a `RemoveProperties`.
module _ {A : Type 0} ⦃e : Eq A⦄ (duplicate : String) where
  reject_repeats : List A → List A → Result (Unit {0})
  reject_repeats seen [] = ok tt
  reject_repeats seen (x ∷ rest) = do
    guard (not (contains seen x)) (invalid_argument duplicate)
    reject_repeats (x ∷ seen) rest

module _ {Value Map : Type 0} (json : Json Value Map) (text : TextOps) where
  abbrev check_object : String → Value → Result (Unit {0})
  check_object message value = do _ ← ok_or (json.as_object value) (invalid_argument message); ok tt

  pub check_partition_values : Option Value → Result (Unit {0})
  check_partition_values none = ok tt
  check_partition_values (some value) = check_object "partition_values must be a JSON object" value

  pub check_format_options : Format → Option Value → Result (Unit {0})
  check_format_options format none = ok tt
  check_format_options format (some value) = do
    check_object "format_options must be a JSON object" value
    map_err to_catalog (validate_format_options json text (as_str format) value)

  -- `FileSpec::validate`
  unfoldable pub validate_file : FileSpec Value → Result (Unit {0})
  unfolding check_partition_values check_format_options to_catalog
  validate_file f = do
    guard (not (is_blank f.file_path)) (invalid_argument "file path cannot be empty")
    guard (not (is_negative f.record_count)) (invalid_argument "record_count cannot be negative")
    guard (not (is_negative f.file_size_bytes))
        (invalid_argument "file_size_bytes cannot be negative")
    check_partition_values f.partition_values
    check_format_options f.file_format f.format_options

module _ {Value Map : Type 0} where
  -- The loop of `Mutation::validate` with its two counters.
  validate_ops : ℕ → ℕ → List (MutationOp Value Map) → Result (Unit {0})
  unfolding reject_repeats
  validate_ops schemas sets [] = ok tt
  validate_ops schemas sets (update_schema spec ∷ rest) = do
    guard (leb (schemas + 1) 1)
        (invalid_argument "mutation can include at most one UpdateSchema operation")
    validate_ops (schemas + 1) sets rest
  validate_ops schemas sets (set_properties properties ∷ rest) = do
    guard (leb (sets + 1) 1)
        (invalid_argument "mutation can include at most one SetProperties operation")
    validate_ops schemas (sets + 1) rest
  validate_ops schemas sets (delete_files file_uuids ∷ rest) = do
    reject_repeats "duplicate file UUID in DeleteFiles: {}" [] file_uuids
    validate_ops schemas sets rest
  validate_ops schemas sets (remove_properties keys ∷ rest) = do
    reject_repeats "duplicate property key in RemoveProperties: {}" [] keys
    validate_ops schemas sets rest
  validate_ops schemas sets (append_files files ∷ rest) = validate_ops schemas sets rest

  -- `Mutation::validate`
  unfoldable pub validate_mutation : Mutation Value Map → Result (Unit {0})
  unfolding validate_ops
  validate_mutation m = validate_ops 0 0 m.operations
