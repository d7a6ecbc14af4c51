-- ===== src/Storage/Lance.antt =====
-- storage/file_format/lance.rs: the reader and the writer. The pump task and the blocking writer run
-- at the same time in the source; the channel between them keeps the order, so the writer sees the
-- list of what the pump sends. Neither task panics.
use planar.Base.{ℕ, String, Bool, Option, none, some, List, [], ◌∷◌, if◌then◌else◌}
use planar.Base.Int.{ℤ}
use planar.Base.Except.{Except, ok, err}
use planar.Storage.{StorageResult, invalid_input}
use planar.Storage.Io.{Io, lift, ◌>>=◌}
use planar.Storage.Streams.{RecordBatchStream, next_batch, path_to_utf8}
use planar.Storage.Crates.{Arrow, LanceCrate}

pub record LanceReadOptions : Type 0 where
  pub batch_size : Option ℕ
  pub columns : Option (List String)
  pub filter : Option String
  pub limit : Option ℤ
  pub offset : Option ℤ
  pub scan_in_order : Option Bool
  pub io_buffer_size : Option ℕ

-- `LanceReadOptions::default`
abbrev pub default_read_options : LanceReadOptions
default_read_options = record {
  batch_size = none;
  columns = none;
  filter = none;
  limit = none;
  offset = none;
  scan_in_order = none;
  io_buffer_size = none;
}

-- `if let Some(value) = option { … }`
abbrev when_some : {S A : Type 0} → Option A → (A → S → S) → S → S
when_some none change s = s
when_some (some value) change s = change value s

abbrev try_some : {S A : Type 0} → Option A → (A → S → StorageResult S) → S → StorageResult S
try_some none change s = ok s
try_some (some value) change s = change value s

-- `if options.limit.is_some() || options.offset.is_some() { … }`
abbrev try_either :
    {S A : Type 0}
    → Option A
    → Option A
    → (Option A → Option A → S → StorageResult S)
    → S
    → StorageResult S
try_either none none change s = ok s
try_either (some a) offset change s = change (some a) offset s
try_either none (some b) change s = change none (some b) s

module _ {Fs FilePath Batch Schema : Type 0} (arrow : Arrow Batch Schema)
    (crate : LanceCrate Fs FilePath Batch Schema) where
  unfoldable pub apply_read_options : LanceReadOptions → crate.Scanner → Io Fs crate.Scanner
  apply_read_options options scanner = do
    let sized = when_some options.batch_size crate.batch_size scanner
    projected ← lift (try_some options.columns crate.project sized)
    filtered ← lift (try_some options.filter crate.filter projected)
    limited ← lift (try_either options.limit options.offset crate.limit filtered)
    let ordered = when_some options.scan_in_order crate.scan_in_order limited
    lift (ok (when_some options.io_buffer_size crate.io_buffer_size ordered))

  open_scanner : FilePath → LanceReadOptions → Io Fs crate.Scanner
  unfolding apply_read_options
  open_scanner path options = do
    uri ← lift (path_to_utf8 (crate.to_str path))
    dataset ← crate.dataset_open uri
    apply_read_options options (crate.scan dataset)

  -- `LanceReader::read_with_options`
  unfoldable pub read_with_options : FilePath → LanceReadOptions → Io Fs Batch
  unfolding open_scanner
  read_with_options path options = do
    scanner ← open_scanner path options
    crate.try_into_batch scanner

  -- `LanceReader::read_stream`
  unfoldable pub read_stream : FilePath → LanceReadOptions → Io Fs (RecordBatchStream Batch)
  unfolding open_scanner
  read_stream path options = do scanner ← open_scanner path options; crate.try_into_stream scanner

  -- `LanceReader::read`
  unfoldable pub read : FilePath → Io Fs Batch
  read path = read_with_options path default_read_options

  -- `LanceWriter::write_with_options`
  unfoldable pub write_with_options : Batch → FilePath → crate.WriteParams → Io Fs (Unit {0})
  write_with_options batch path options = do
    uri ← lift (path_to_utf8 (crate.to_str path))
    crate.write (arrow.schema batch) (ok batch ∷ []) uri options

  -- What the pump sends: the batches, up to the first error or the first other schema.
  unfoldable pub pump : Schema → RecordBatchStream Batch → List (Except crate.ArrowError Batch)
  pump expected_schema [] = []
  pump expected_schema (ok batch ∷ rest) =
      let others = pump expected_schema rest in
      if arrow.schema_eq.equals (arrow.schema batch) expected_schema
      then ok batch ∷ others
      else err (
          crate.external_error (invalid_input "Schema mismatch in stream: expected {:?}, got {:?}"))
        ∷ []
  pump expected_schema (err e ∷ rest) = err (crate.external_error e) ∷ []

  -- `LanceWriter::write_stream`: the items of `StreamRecordBatchReader` are the first batch and
  -- then what the pump sends.
  unfoldable pub write_stream :
      RecordBatchStream Batch → FilePath → crate.WriteParams → Io Fs (Unit {0})
  unfolding next_batch pump
  write_stream stream path options = do
    uri ← lift (path_to_utf8 (crate.to_str path))
    (first, rest) ← lift (next_batch stream)
    let schema = arrow.schema first
    crate.write schema (ok first ∷ pump schema rest) uri options

  -- `LanceWriter::write`, with the default parameters
  unfoldable pub write : Batch → FilePath → Io Fs (Unit {0})
  write batch path = write_with_options batch path crate.default_params
