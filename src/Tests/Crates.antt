-- ===== src/Tests/Crates.antt =====
-- A file system of one file, whose content is a list of numbers, and formats that write into it. A
-- batch is a number, and its schema the last digit.
use planar.Base.{ℕ, ◌%◌, ◌≡◌, refl, true, String, List, [], ◌∷◌, ◌++◌, map, some, All, arith}
use planar.Base.Eq.{nat_eq}
use planar.Base.Except.{Except, ok, err}
use planar.Storage.{StorageError, StorageResult, io}
use planar.Storage.Crates.{Arrow, ParquetCrate, LanceCrate, VortexCrate, Crates}
use planar.Storage.Dispatch.Agreement.{Concatenates}
use planar.Storage.Dispatch.Success.{Strict, succeeded}

abbrev pub Disk : Type 0
Disk = List ℕ

abbrev joined : ℕ → List ℕ → StorageResult ℕ
joined schema [] = ok schema
joined schema (b ∷ rest) = ok b

abbrev pub toy_arrow : Arrow ℕ ℕ
toy_arrow = record {
  schema = λ b. b % 10;
  schema_eq = nat_eq;
  new_empty = λ s. s;
  concat_batches = joined;
}

abbrev pub toy_parquet : ParquetCrate Disk String ℕ ℕ
toy_parquet = record {
  File = Unit {0};
  ArrowReaderOptions = Unit {0};
  StreamBuilder = List ℕ;
  WriterProperties = Unit {0};
  ArrowWriter = Unit {0};
  default_reader_options = tt;
  default_properties = tt;
  file_open = λ path fs. (fs, ok tt);
  create = λ path fs. ([], ok tt);
  new_with_options = λ file options fs. (fs, ok fs);
  with_batch_size = λ builder size. builder;
  builder_schema = λ builder. 0;
  build = λ builder. ok (map (λ b. ok b) builder);
  try_new = λ file schema options fs. (fs, ok tt);
  write = λ writer b fs. (fs ++ b ∷ [], ok tt);
  close = λ writer fs. (fs, ok tt);
}

-- Items are written up to the first error.
abbrev write_items : List (Except StorageError ℕ) → Disk → Disk × StorageResult (Unit {0})
write_items [] fs = (fs, ok tt)
write_items (ok b ∷ rest) fs = write_items rest (fs ++ b ∷ [])
write_items (err e ∷ rest) fs = (fs, err e)

abbrev toy_lance : LanceCrate Disk String ℕ ℕ
toy_lance = record {
  Dataset = Disk;
  Scanner = Disk;
  WriteParams = Unit {0};
  ArrowError = StorageError;
  default_params = tt;
  to_str = λ path. some path;
  dataset_open = λ uri fs. (fs, ok fs);
  scan = λ dataset. dataset;
  batch_size = λ n s. s;
  project = λ columns s. ok s;
  filter = λ condition s. ok s;
  limit = λ a b s. ok s;
  scan_in_order = λ b s. s;
  io_buffer_size = λ n s. s;
  try_into_batch = λ s fs. (fs, joined 0 s);
  try_into_stream = λ s fs. (fs, ok (map (λ b. ok b) s));
  external_error = λ e. e;
  write = λ schema items uri params fs. write_items items fs;
}

abbrev toy_vortex : VortexCrate Disk String ℕ
toy_vortex = record {
  File = Unit {0};
  Array = ℕ;
  DType = ℕ;
  OpenOptions = Unit {0};
  WriteOptions = Unit {0};
  VortexError = StorageError;
  dtype_eq = nat_eq;
  default_open = tt;
  default_write = tt;
  to_str = λ path. some path;
  with_initial_read_size = λ n o. o;
  without_segment_cache = λ o. o;
  with_dtype = λ d o. o;
  file_open = λ o path fs. (fs, ok tt);
  array_stream = λ file. ok [];
  read_all = λ stream fs. (fs, ok 0);
  try_from = λ a. ok a;
  from_arrow = λ b. b;
  dtype = λ a. a % 10;
  io_error = io;
  other_error = λ e. e;
  create = λ path fs. ([], ok tt);
  write = λ options file dtype items fs. write_items items fs;
}

abbrev pub toy_crates : Crates Disk String ℕ ℕ
toy_crates = record {
  arrow = toy_arrow;
  parquet = toy_parquet;
  lance = toy_lance;
  vortex = toy_vortex;
}

pub toy_arrow-Concatenates : Concatenates toy_arrow
toy_arrow-Concatenates = record { none_lem = λ schema. refl; one_lem = λ batch. refl }

write_items-succeeded :
    (items : List (Except StorageError ℕ)) (fs : Disk)
    → (write_items items fs).1 ≡ ok tt
    → All (λ item. succeeded item ≡ true) items
write_items-succeeded [] fs h = tt
write_items-succeeded (ok b ∷ rest) fs h = (refl, write_items-succeeded rest (fs ++ b ∷ []) h)
write_items-succeeded (err e ∷ rest) fs h = absurd (ground arith)

pub toy_crates-Strict : Strict toy_crates
toy_crates-Strict = record {
  lance = λ schema items uri params fs. write_items-succeeded items fs;
  vortex = λ options file dtype items fs. write_items-succeeded items fs;
}
