-- ===== src/Storage/Options.antt =====
-- The writer options of storage/file_format/*.rs and storage/utils.rs. What a builder of the
-- parquet, lance or vortex crate is told stands in the list of settings, in order.
pub mod Objects
use planar.Base.{ℕ, String, Bool, ◌||◌, Option, none, some, List, [], ◌∷◌, ◌++◌, if◌then◌else◌}
use planar.Base.Except.{ok, err, ok_or, ◌>>=◌, ◌>>◌}
use text.Mathlib.Text.{◌==◌}
use planar.Json.{Json}
use planar.Storage.{unsupported, StorageResult, TextOps}

pub data Compression : Type 0 where
  uncompressed snappy gzip brotli lz4 zstd : Compression

pub data BloomFilterPosition : Type 0 where
  after_row_group end : BloomFilterPosition

pub data Setting : Type 0 where
  compression : Compression → Setting
  max_row_group_size data_page_size_limit data_page_row_count_limit : ℕ → Setting
  write_batch_size writer_version : ℕ → Setting
  bloom_filter_position : BloomFilterPosition → Setting
  created_by : String → Setting
  offset_index_disabled : Bool → Setting
  max_rows_per_file max_rows_per_group max_bytes_per_file mode : ℕ → Setting
  enable_stable_row_ids enable_v2_manifest_paths : Bool → Setting
  exclude_dtype : Setting

parse_compression : TextOps → String → StorageResult Setting
parse_compression text value =
    let name = text.to_lowercase value in
    if name == "uncompressed" || name == "none"
    then ok (compression uncompressed)
    else if name == "snappy"
    then ok (compression snappy)
    else if name == "gzip"
    then ok (compression gzip)
    else if name == "brotli"
    then ok (compression brotli)
    else if name == "lz4"
    then ok (compression lz4)
    else if name == "zstd"
    then ok (compression zstd)
    else err (unsupported "Unsupported compression: {}")

parse_writer_version : TextOps → String → StorageResult Setting
parse_writer_version text value = do
  version ← ok_or (text.writer_version value) (unsupported "{}")
  ok (writer_version version)

parse_bloom_filter_position : TextOps → String → StorageResult Setting
parse_bloom_filter_position text value =
    let name = text.to_lowercase value in
    if name == "afterrowgroup" || name == "after_row_group"
    then ok (bloom_filter_position after_row_group)
    else if name == "end"
    then ok (bloom_filter_position end)
    else err (unsupported "Unsupported bloom_filter_position: {}")

parse_write_mode : TextOps → String → StorageResult Setting
parse_write_mode text value = do
  m ← ok_or (text.write_mode value) (unsupported "Unsupported write mode: {}")
  ok (mode m)

module _ {Value Map : Type 0} (json : Json Value Map) where
  parse_usize : Value → StorageResult ℕ
  parse_usize value = ok_or (json.as_u64 value) (unsupported "{} must be an integer")

  string_option : Value → StorageResult String
  string_option value = ok_or (json.as_str value) (unsupported "{} must be a string")

  bool_option : Value → StorageResult Bool
  bool_option value = ok_or (json.as_bool value) (unsupported "{} must be a bool")

  -- One round of the loop over the entries, for each format: what it tells the builder.
  pub parquet_entry : TextOps → String → Value → StorageResult (List Setting)
  parquet_entry text key value =
      if key == "compression"
      then (do v ← string_option value; s ← parse_compression text v; ok (s ∷ []))
      else if key == "max_row_group_size"
      then (do n ← parse_usize value; ok (max_row_group_size n ∷ []))
      else if key == "data_page_size_limit"
      then (do n ← parse_usize value; ok (data_page_size_limit n ∷ []))
      else if key == "data_page_row_count_limit"
      then (do n ← parse_usize value; ok (data_page_row_count_limit n ∷ []))
      else if key == "write_batch_size"
      then (do n ← parse_usize value; ok (write_batch_size n ∷ []))
      else if key == "writer_version"
      then (do v ← string_option value; s ← parse_writer_version text v; ok (s ∷ []))
      else if key == "bloom_filter_position"
      then (do v ← string_option value; s ← parse_bloom_filter_position text v; ok (s ∷ []))
      else if key == "created_by"
      then (do v ← string_option value; ok (created_by v ∷ []))
      else if key == "offset_index_disabled"
      then (do b ← bool_option value; ok (offset_index_disabled b ∷ []))
      else err (unsupported "Unsupported option '{}' for format 'parquet'")

  pub lance_entry : TextOps → String → Value → StorageResult (List Setting)
  lance_entry text key value =
      if key == "max_rows_per_file"
      then (do n ← parse_usize value; ok (max_rows_per_file n ∷ []))
      else if key == "max_rows_per_group"
      then (do n ← parse_usize value; ok (max_rows_per_group n ∷ []))
      else if key == "max_bytes_per_file"
      then (do n ← parse_usize value; ok (max_bytes_per_file n ∷ []))
      else if key == "mode"
      then (do v ← string_option value; s ← parse_write_mode text v; ok (s ∷ []))
      else if key == "enable_stable_row_ids"
      then (do b ← bool_option value; ok (enable_stable_row_ids b ∷ []))
      else if key == "enable_v2_manifest_paths"
      then (do b ← bool_option value; ok (enable_v2_manifest_paths b ∷ []))
      else err (unsupported "Unsupported option '{}' for format 'lance'")

  pub vortex_entry : String → Value → StorageResult (List Setting)
  vortex_entry key value =
      if key == "exclude_dtype"
      then (do b ← bool_option value; ok (if b then exclude_dtype ∷ [] else []))
      else err (unsupported "Unsupported option '{}' for format 'vortex'")

  -- The loop of `parse_write_options`; an error ends it.
  parse_entries :
      (String → Value → StorageResult (List Setting))
      → List (String × Value)
      → StorageResult (List Setting)
  parse_entries entry [] = ok []
  parse_entries entry ((key, value) ∷ rest) = do
    settings ← entry key value
    others ← parse_entries entry rest
    ok (settings ++ others)

  pub parse_options :
      (String → Value → StorageResult (List Setting)) → Option Value → StorageResult (List Setting)
  parse_options entry none = ok []
  parse_options entry (some options) = do
    object ← ok_or (json.as_object options) (unsupported "format_options must be a JSON object")
    parse_entries entry (json.entries object)

  unfoldable pub parse_parquet_options : TextOps → Option Value → StorageResult (List Setting)
  unfolding parse_options parse_entries parquet_entry parse_usize string_option bool_option
      parse_compression parse_writer_version parse_bloom_filter_position
  parse_parquet_options text = parse_options (parquet_entry text)

  unfoldable pub parse_lance_options : TextOps → Option Value → StorageResult (List Setting)
  unfolding parse_options parse_entries lance_entry parse_usize string_option bool_option
      parse_write_mode
  parse_lance_options text = parse_options (lance_entry text)

  unfoldable pub parse_vortex_options : TextOps → Option Value → StorageResult (List Setting)
  unfolding parse_options parse_entries vortex_entry bool_option
  parse_vortex_options text = parse_options vortex_entry

  -- `validate_format_options`
  unfoldable pub validate_format_options : TextOps → String → Value → StorageResult (Unit {0})
  validate_format_options text file_format options =
      let name = text.to_lowercase file_format in
      if name == "parquet"
      then (do _ ← parse_parquet_options text (some options); ok tt)
      else if name == "lance"
      then (do _ ← parse_lance_options text (some options); ok tt)
      else if name == "vortex"
      then (do _ ← parse_vortex_options text (some options); ok tt)
      else err (unsupported "Unsupported file format: {}")
