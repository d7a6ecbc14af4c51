-- ===== src/Storage/Parquet.antt =====
-- storage/file_format/parquet.rs: the reader and the writer.
use planar.Base.{ℕ, Option, none, some, List, [], ◌∷◌}
use planar.Base.Except.{ok}
use planar.Storage.{StorageResult, unsupported}
use planar.Storage.Io.{Io, lift, return, guard, ◌>>=◌, ◌>>◌}
use planar.Storage.Streams.{RecordBatchStream, try_collect, next_batch}
use planar.Storage.Crates.{Arrow, ParquetCrate}

module _ {Fs FilePath Batch Schema : Type 0} (arrow : Arrow Batch Schema)
    (crate : ParquetCrate Fs FilePath Batch Schema) where
  pub record ParquetReadOptions : Type 0 where
    pub arrow_options : crate.ArrowReaderOptions
    pub batch_size : Option ℕ

  -- `ParquetReadOptions::default`
  abbrev pub default_read_options : ParquetReadOptions
  default_read_options = record { arrow_options = crate.default_reader_options; batch_size = none }

  with_size : crate.StreamBuilder → Option ℕ → crate.StreamBuilder
  with_size builder none = builder
  with_size builder (some size) = crate.with_batch_size builder size

  unfoldable pub apply_read_options : crate.StreamBuilder → ParquetReadOptions → crate.StreamBuilder
  unfolding with_size
  apply_read_options builder options = with_size builder options.batch_size

  pub open_builder : FilePath → ParquetReadOptions → Io Fs crate.StreamBuilder
  unfolding apply_read_options
  open_builder path options = do
    file ← crate.file_open path
    builder ← crate.new_with_options file options.arrow_options
    return (apply_read_options builder options)

  -- The `match` on the number of batches.
  unfoldable pub as_one : Schema → List Batch → StorageResult Batch
  as_one schema [] = ok (arrow.new_empty schema)
  as_one schema (batch ∷ []) = ok batch
  as_one schema (batch ∷ next ∷ rest) =
      arrow.concat_batches (arrow.schema batch) (batch ∷ next ∷ rest)

  -- `ParquetReader::read_with_options`
  unfoldable pub read_with_options : FilePath → ParquetReadOptions → Io Fs Batch
  unfolding open_builder as_one
  read_with_options path options = do
    builder ← open_builder path options
    let schema = crate.builder_schema builder
    stream ← lift (crate.build builder)
    batches ← lift (try_collect stream)
    lift (as_one schema batches)

  -- `ParquetReader::read_stream`
  unfoldable pub read_stream : FilePath → ParquetReadOptions → Io Fs (RecordBatchStream Batch)
  unfolding open_builder
  read_stream path options = do builder ← open_builder path options; lift (crate.build builder)

  -- `ParquetReader::read`
  unfoldable pub read : FilePath → Io Fs Batch
  read path = read_with_options path default_read_options

  -- `ParquetWriter::write_with_options`
  unfoldable pub write_with_options : Batch → FilePath → crate.WriterProperties → Io Fs (Unit {0})
  write_with_options batch path options = do
    file ← crate.create path
    writer ← crate.try_new file (arrow.schema batch) options
    writer ← crate.write writer batch
    crate.close writer

  -- The loop of `write_stream` over the batches after the first one.
  unfoldable pub write_rest :
      Schema → RecordBatchStream Batch → crate.ArrowWriter → Io Fs crate.ArrowWriter
  write_rest expected_schema [] writer = return writer
  write_rest expected_schema (item ∷ rest) writer = do
    batch ← lift item
    guard (arrow.schema_eq.equals (arrow.schema batch) expected_schema)
        (unsupported "Schema mismatch in stream: expected {:?}, got {:?}")
    writer' ← crate.write writer batch
    write_rest expected_schema rest writer'

  -- `ParquetWriter::write_stream`: the file is created before the stream is read.
  unfoldable pub write_stream :
      RecordBatchStream Batch → FilePath → crate.WriterProperties → Io Fs (Unit {0})
  unfolding next_batch write_rest
  write_stream stream path options = do
    file ← crate.create path
    (first, rest) ← lift (next_batch stream)
    let expected_schema = arrow.schema first
    writer ← crate.try_new file expected_schema options
    writer ← crate.write writer first
    writer ← write_rest expected_schema rest writer
    crate.close writer

  -- `ParquetWriter::write`, with the default properties
  unfoldable pub write : Batch → FilePath → Io Fs (Unit {0})
  write batch path = write_with_options batch path crate.default_properties
