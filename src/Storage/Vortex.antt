-- ===== src/Storage/Vortex.antt =====
-- storage/file_format/vortex.rs: the reader and the writer.
use planar.Base.{ℕ, Bool, true, false, Option, none, some, List, [], ◌∷◌, map, if◌then◌else◌}
use planar.Base.Except.{Except, ok, err}
use planar.Base.Except.{◌>>=◌ as then_try}
use planar.Storage.{StorageResult}
use planar.Storage.Io.{Io, lift, ◌>>=◌}
use planar.Storage.Streams.{RecordBatchStream, next_batch, path_to_utf8}
use planar.Storage.Crates.{VortexCrate}

module _ {Fs FilePath Batch : Type 0} (crate : VortexCrate Fs FilePath Batch) where
  pub record VortexReadOptions : Type 0 where
    pub initial_read_size : Option ℕ
    pub segment_cache : Option Bool
    pub dtype : Option crate.DType

  -- `VortexReadOptions::default`
  abbrev pub default_read_options : VortexReadOptions
  default_read_options = record { initial_read_size = none; segment_cache = none; dtype = none }

  abbrev sized : Option ℕ → crate.OpenOptions → crate.OpenOptions
  sized none options = options
  sized (some size) options = crate.with_initial_read_size size options

  abbrev cached : Option Bool → crate.OpenOptions → crate.OpenOptions
  cached none options = options
  cached (some true) options = options
  cached (some false) options = crate.without_segment_cache options

  abbrev typed : Option crate.DType → crate.OpenOptions → crate.OpenOptions
  typed none options = options
  typed (some dtype) options = crate.with_dtype dtype options

  unfoldable pub apply_read_options : VortexReadOptions → crate.OpenOptions
  apply_read_options options =
      typed options.dtype
        (cached options.segment_cache (sized options.initial_read_size crate.default_open))

  open_array_stream : FilePath → VortexReadOptions → Io Fs (List (StorageResult crate.Array))
  unfolding apply_read_options
  open_array_stream path options = do
    path_str ← lift (path_to_utf8 (crate.to_str path))
    file ← crate.file_open (apply_read_options options) path_str
    lift (crate.array_stream file)

  -- `VortexReader::read_with_options`
  unfoldable pub read_with_options : FilePath → VortexReadOptions → Io Fs Batch
  unfolding open_array_stream
  read_with_options path options = do
    stream ← open_array_stream path options
    array ← crate.read_all stream
    lift (crate.try_from array)

  -- `VortexReader::read_stream`
  unfoldable pub read_stream : FilePath → VortexReadOptions → Io Fs (RecordBatchStream Batch)
  unfolding open_array_stream
  read_stream path options = do
    stream ← open_array_stream path options
    lift (ok (map (λ item. then_try item crate.try_from) stream))

  -- `VortexReader::read`
  unfoldable pub read : FilePath → Io Fs Batch
  read path = read_with_options path default_read_options

  -- `VortexWriter::write_with_options`. The array stream of one array holds it.
  unfoldable pub write_with_options : Batch → FilePath → crate.WriteOptions → Io Fs (Unit {0})
  write_with_options batch path options = do
    let vortex_array = crate.from_arrow batch
    file ← crate.create path
    crate.write options file (crate.dtype vortex_array) (ok vortex_array ∷ [])

  -- One item of the rest of the stream, as the writer sees it.
  unfoldable pub convert : crate.DType → StorageResult Batch → Except crate.VortexError crate.Array
  convert expected_dtype (ok batch) =
      let array = crate.from_arrow batch in
      if crate.dtype_eq.equals (crate.dtype array) expected_dtype
      then ok array
      else err (crate.io_error "dtype mismatch in stream: expected {:?}, got {:?}")
  convert expected_dtype (err e) = err (crate.other_error e)

  -- `VortexWriter::write_stream`: the file is created after the first batch was read.
  unfoldable pub write_stream :
      RecordBatchStream Batch → FilePath → crate.WriteOptions → Io Fs (Unit {0})
  unfolding next_batch convert
  write_stream stream path options = do
    (first, rest) ← lift (next_batch stream)
    let first_array = crate.from_arrow first
    let dtype = crate.dtype first_array
    file ← crate.create path
    crate.write options file dtype (ok first_array ∷ map (convert dtype) rest)

  -- `VortexWriter::write`, with the default options
  unfoldable pub write : Batch → FilePath → Io Fs (Unit {0})
  write batch path = write_with_options batch path crate.default_write
