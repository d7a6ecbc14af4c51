-- ===== src/Storage/Crates.antt =====
-- What storage/file_format/*.rs calls of the arrow, parquet, lance, vortex and tokio crates. An error
-- of a crate stands as the `StorageError` that `From` makes of it.
use planar.Base.{ℕ, String, Bool, Option, List}
use planar.Base.Except.{Except}
use planar.Base.Int.{ℤ}
use planar.Base.Eq.{Eq}
use planar.Storage.{StorageError, StorageResult}
use planar.Storage.Io.{Io}
use planar.Storage.Streams.{RecordBatchStream}

-- arrow: `RecordBatch::schema` and its comparison, `RecordBatch::new_empty`, and `concat_batches`.
pub record Arrow (Batch Schema : Type 0) : Type 0 where
  pub schema : Batch → Schema
  pub schema_eq : Eq Schema
  pub new_empty : Schema → Batch
  pub concat_batches : Schema → List Batch → StorageResult Batch

-- tokio's files, the builder of a reader, and the writer. A writer that changed is returned.
pub record ParquetCrate (Fs FilePath Batch Schema : Type 0) : Type 1 where
  pub File : Type 0
  pub ArrowReaderOptions : Type 0
  pub StreamBuilder : Type 0
  pub WriterProperties : Type 0
  pub ArrowWriter : Type 0
  pub default_reader_options : ArrowReaderOptions
  pub default_properties : WriterProperties
  pub file_open : FilePath → Io Fs File
  pub create : FilePath → Io Fs File
  pub new_with_options : File → ArrowReaderOptions → Io Fs StreamBuilder
  pub with_batch_size : StreamBuilder → ℕ → StreamBuilder
  pub builder_schema : StreamBuilder → Schema
  pub build : StreamBuilder → StorageResult (RecordBatchStream Batch)
  pub try_new : File → Schema → WriterProperties → Io Fs ArrowWriter
  pub write : ArrowWriter → Batch → Io Fs ArrowWriter
  pub close : ArrowWriter → Io Fs (Unit {0})

-- `Dataset` and its scanner. A dataset is written from an iterator of batches and Arrow errors.
pub record LanceCrate (Fs FilePath Batch Schema : Type 0) : Type 1 where
  pub Dataset : Type 0
  pub Scanner : Type 0
  pub WriteParams : Type 0
  pub ArrowError : Type 0
  pub default_params : WriteParams
  pub to_str : FilePath → Option String
  pub dataset_open : String → Io Fs Dataset
  pub scan : Dataset → Scanner
  pub batch_size : ℕ → Scanner → Scanner
  pub project : List String → Scanner → StorageResult Scanner
  pub filter : String → Scanner → StorageResult Scanner
  pub limit : Option ℤ → Option ℤ → Scanner → StorageResult Scanner
  pub scan_in_order : Bool → Scanner → Scanner
  pub io_buffer_size : ℕ → Scanner → Scanner
  pub try_into_batch : Scanner → Io Fs Batch
  pub try_into_stream : Scanner → Io Fs (RecordBatchStream Batch)
  pub external_error : StorageError → ArrowError
  pub write : Schema → List (Except ArrowError Batch) → String → WriteParams → Io Fs (Unit {0})

-- Arrays, the options of the file format, and the streams of arrays with their errors.
pub record VortexCrate (Fs FilePath Batch : Type 0) : Type 1 where
  pub File : Type 0
  pub Array : Type 0
  pub DType : Type 0
  pub OpenOptions : Type 0
  pub WriteOptions : Type 0
  pub VortexError : Type 0
  pub dtype_eq : Eq DType
  pub default_open : OpenOptions
  pub default_write : WriteOptions
  pub to_str : FilePath → Option String
  pub with_initial_read_size : ℕ → OpenOptions → OpenOptions
  pub without_segment_cache : OpenOptions → OpenOptions
  pub with_dtype : DType → OpenOptions → OpenOptions
  pub file_open : OpenOptions → String → Io Fs File
  pub array_stream : File → StorageResult (List (StorageResult Array))
  pub read_all : List (StorageResult Array) → Io Fs Array
  pub try_from : Array → StorageResult Batch
  pub from_arrow : Batch → Array
  pub dtype : Array → DType
  pub io_error : String → VortexError
  pub other_error : StorageError → VortexError
  pub create : FilePath → Io Fs File
  pub write : WriteOptions → File → DType → List (Except VortexError Array) → Io Fs (Unit {0})

-- All of them, over one file system and one type of batches.
pub record Crates (Fs FilePath Batch Schema : Type 0) : Type 1 where
  pub arrow : Arrow Batch Schema
  pub parquet : ParquetCrate Fs FilePath Batch Schema
  pub lance : LanceCrate Fs FilePath Batch Schema
  pub vortex : VortexCrate Fs FilePath Batch
