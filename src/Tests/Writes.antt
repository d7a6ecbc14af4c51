-- ===== src/Tests/Writes.antt =====
-- Streams that are written and read, and the theorems on the formats applied to them.
use planar.Base.{ℕ, ◌≡◌, refl, [], ◌∷◌, none}
use planar.Base.Except.{ok, err}
use planar.Storage.{io}
use planar.Storage.Streams.{RecordBatchStream, next_batch}
use planar.Storage.Parquet
use planar.Storage.Parquet.{ParquetReadOptions}
use planar.Storage.Lance
use planar.Storage.Vortex
use planar.Storage.Dispatch.{WriterEnum, FormatWriteOptions, write_stream, write_with_options}
use planar.Storage.Dispatch.Agreement.{write_stream-one, read_with_options-read_stream, collected}
use planar.Storage.Dispatch.Clean.{Clean, write_stream-no_first}
use planar.Storage.Dispatch.Success.{Alike, write_stream-Clean}
use planar.Tests.Crates.{
  toy_arrow, toy_parquet, toy_crates, toy_arrow-Concatenates, toy_crates-Strict,
}

write_stream-one_example :
    write_stream toy_crates WriterEnum.parquet
      (ok 12 ∷ [])
      "/data/file"
      (FormatWriteOptions.parquet tt)
      (3 ∷ [])
    ≡ write_with_options toy_crates WriterEnum.parquet 12 "/data/file"
        (FormatWriteOptions.parquet tt)
        (3 ∷ [])
write_stream-one_example =
    write_stream-one toy_crates WriterEnum.parquet 12 "/data/file" (FormatWriteOptions.parquet tt)
      (3 ∷ [])

abbrev plain : ParquetReadOptions toy_arrow toy_parquet
plain = record { arrow_options = tt; batch_size = none }

stream_run :
    Parquet.read_stream toy_arrow toy_parquet "/data/file" plain (12 ∷ 22 ∷ [])
    ≡ (12 ∷ 22 ∷ [], ok (ok 12 ∷ ok 22 ∷ []))
unfolding Parquet.read_stream
stream_run = refl

read_with_options-read_stream_example :
    (builder : toy_parquet.StreamBuilder) × (Parquet.open_builder toy_arrow toy_parquet "/data/file"
        plain
        (12 ∷ 22 ∷ [])
      ≡ (12 ∷ 22 ∷ [], ok builder))
    × (Parquet.read_with_options toy_arrow toy_parquet "/data/file" plain (12 ∷ 22 ∷ []) ≡ (
      12 ∷ 22 ∷ [],
      collected toy_arrow toy_parquet (toy_parquet.builder_schema builder) (ok 12 ∷ ok 22 ∷ []),
    ))
read_with_options-read_stream_example =
    read_with_options-read_stream toy_arrow toy_parquet toy_arrow-Concatenates "/data/file" plain
      (12 ∷ 22 ∷ []) (12 ∷ 22 ∷ []) (ok 12 ∷ ok 22 ∷ []) stream_run

abbrev two_batches : RecordBatchStream ℕ
two_batches = ok 12 ∷ ok 22 ∷ []

write_run :
    (write_stream toy_crates WriterEnum.lance two_batches "/data/file"
      (FormatWriteOptions.lance tt)
      (3 ∷ [])).1
    ≡ ok tt
unfolding write_stream Lance.write_stream Lance.pump next_batch
write_run = refl

write_stream-Clean_example : Clean (Alike toy_crates WriterEnum.lance) two_batches
write_stream-Clean_example =
    write_stream-Clean toy_crates toy_crates-Strict WriterEnum.lance two_batches "/data/file"
      (FormatWriteOptions.lance tt) (3 ∷ []) write_run

abbrev broken : RecordBatchStream ℕ
broken = err (io "disk") ∷ ok 12 ∷ []

broken_run : next_batch broken ≡ err (io "disk")
unfolding next_batch
broken_run = refl

write_stream-no_first_example :
    (Parquet.write_stream toy_arrow toy_parquet broken "/data/file" tt (3 ∷ [])
      ≡ ([], err (io "disk")))
    × ((Lance.write_stream toy_arrow toy_crates.lance broken "/data/file" tt (3 ∷ [])).0 ≡ 3 ∷ [])
    × (Vortex.write_stream toy_crates.vortex broken "/data/file" tt (3 ∷ [])
        ≡ (3 ∷ [], err (io "disk")))
write_stream-no_first_example =
    write_stream-no_first toy_crates broken "/data/file" (3 ∷ []) (io "disk") tt tt tt tt []
      broken_run refl
