-- ===== src/Storage/Dispatch.antt =====
-- storage/mod.rs: `ReaderEnum` and `WriterEnum`, which pass a call on to the reader or the writer of
-- one format, if the options are of this format.
pub mod Agreement
pub mod Success
pub mod Clean
use planar.Base.{String}
use planar.Base.Except.{err}
use planar.Base.Except.{◌>>=◌, ok}
use planar.Storage.{Format, StorageResult, TextOps, unsupported, from_str}
use planar.Storage.Io.{Io, lift}
use planar.Storage.Streams.{RecordBatchStream}
use planar.Storage.Crates.{Crates}
use planar.Storage.Parquet
use planar.Storage.Parquet.{ParquetReadOptions}
use planar.Storage.Lance
use planar.Storage.Lance.{LanceReadOptions}
use planar.Storage.Vortex
use planar.Storage.Vortex.{VortexReadOptions}

pub data ReaderEnum : Type 0 where
  parquet lance vortex : ReaderEnum

pub data WriterEnum : Type 0 where
  parquet lance vortex : WriterEnum

-- `ReaderEnum::new`
unfoldable pub new_reader : Format → ReaderEnum
new_reader Format.parquet = ReaderEnum.parquet
new_reader Format.lance = ReaderEnum.lance
new_reader Format.vortex = ReaderEnum.vortex

-- `WriterEnum::new`
unfoldable pub new_writer : Format → WriterEnum
new_writer Format.parquet = WriterEnum.parquet
new_writer Format.lance = WriterEnum.lance
new_writer Format.vortex = WriterEnum.vortex

-- `ReaderEnum::from_str`
unfoldable pub reader_from_str : TextOps → String → StorageResult ReaderEnum
unfolding new_reader
reader_from_str text format_str = do format ← from_str text format_str; ok (new_reader format)

-- `WriterEnum::from_str`
unfoldable pub writer_from_str : TextOps → String → StorageResult WriterEnum
unfolding new_writer
writer_from_str text format_str = do format ← from_str text format_str; ok (new_writer format)

module _ {Fs FilePath Batch Schema : Type 0} (crates : Crates Fs FilePath Batch Schema) where
  pub data FormatReadOptions : Type 0 where
    parquet : ParquetReadOptions crates.arrow crates.parquet → FormatReadOptions
    lance : LanceReadOptions → FormatReadOptions
    vortex : VortexReadOptions crates.vortex → FormatReadOptions

  pub data FormatWriteOptions : Type 0 where
    parquet : crates.parquet.WriterProperties → FormatWriteOptions
    lance : crates.lance.WriteParams → FormatWriteOptions
    vortex : crates.vortex.WriteOptions → FormatWriteOptions

  unfoldable pub read_with_options : ReaderEnum → FilePath → FormatReadOptions → Io Fs Batch
  read_with_options ReaderEnum.parquet path (FormatReadOptions.parquet options) =
      Parquet.read_with_options crates.arrow crates.parquet path options
  read_with_options ReaderEnum.lance path (FormatReadOptions.lance options) =
      Lance.read_with_options crates.arrow crates.lance path options
  read_with_options ReaderEnum.vortex path (FormatReadOptions.vortex options) =
      Vortex.read_with_options crates.vortex path options
  read_with_options _ path _ = lift (err (unsupported "read options do not match reader format"))

  unfoldable pub read_stream :
      ReaderEnum → FilePath → FormatReadOptions → Io Fs (RecordBatchStream Batch)
  read_stream ReaderEnum.parquet path (FormatReadOptions.parquet options) =
      Parquet.read_stream crates.arrow crates.parquet path options
  read_stream ReaderEnum.lance path (FormatReadOptions.lance options) =
      Lance.read_stream crates.arrow crates.lance path options
  read_stream ReaderEnum.vortex path (FormatReadOptions.vortex options) =
      Vortex.read_stream crates.vortex path options
  read_stream _ path _ = lift (err (unsupported "read options do not match reader format"))

  -- `Reader for ReaderEnum`
  unfoldable pub read : ReaderEnum → FilePath → Io Fs Batch
  read ReaderEnum.parquet path = Parquet.read crates.arrow crates.parquet path
  read ReaderEnum.lance path = Lance.read crates.arrow crates.lance path
  read ReaderEnum.vortex path = Vortex.read crates.vortex path

  unfoldable pub write_with_options :
      WriterEnum → Batch → FilePath → FormatWriteOptions → Io Fs (Unit {0})
  write_with_options WriterEnum.parquet batch path (FormatWriteOptions.parquet options) =
      Parquet.write_with_options crates.arrow crates.parquet batch path options
  write_with_options WriterEnum.lance batch path (FormatWriteOptions.lance options) =
      Lance.write_with_options crates.arrow crates.lance batch path options
  write_with_options WriterEnum.vortex batch path (FormatWriteOptions.vortex options) =
      Vortex.write_with_options crates.vortex batch path options
  write_with_options _ batch path _ =
      lift (err (unsupported "write options do not match writer format"))

  unfoldable pub write_stream :
      WriterEnum → RecordBatchStream Batch → FilePath → FormatWriteOptions → Io Fs (Unit {0})
  write_stream WriterEnum.parquet stream path (FormatWriteOptions.parquet options) =
      Parquet.write_stream crates.arrow crates.parquet stream path options
  write_stream WriterEnum.lance stream path (FormatWriteOptions.lance options) =
      Lance.write_stream crates.arrow crates.lance stream path options
  write_stream WriterEnum.vortex stream path (FormatWriteOptions.vortex options) =
      Vortex.write_stream crates.vortex stream path options
  write_stream _ stream path _ = lift (err (unsupported "write options do not match writer format"))

  -- `Writer for WriterEnum`
  unfoldable pub write : WriterEnum → Batch → FilePath → Io Fs (Unit {0})
  write WriterEnum.parquet batch path = Parquet.write crates.arrow crates.parquet batch path
  write WriterEnum.lance batch path = Lance.write crates.arrow crates.lance batch path
  write WriterEnum.vortex batch path = Vortex.write crates.vortex batch path
