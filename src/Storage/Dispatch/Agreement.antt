-- ===== src/Storage/Dispatch/Agreement.antt =====
-- The calls of the dispatch that should come to the same thing, and reads at once against reads of a stream.
use planar.Base.{◌≡◌, refl, ap, sym, ◌∙◌, List, [], ◌∷◌, arith}
use planar.Base.Except.{ok, err}
use planar.Base.Except.{◌>>=◌ as then_try}
use planar.Storage.{StorageError, StorageResult}
use planar.Storage.Io.{Io, lift, resume, ◌>>=◌}
use planar.Storage.Streams.{RecordBatchStream, try_collect, next_batch}
use planar.Storage.Crates.{Arrow, ParquetCrate, Crates}
use planar.Storage.Parquet
use planar.Storage.Parquet.{ParquetReadOptions}
use planar.Storage.Lance
use planar.Storage.Vortex
use planar.Storage.Dispatch.{WriterEnum, FormatWriteOptions, write_with_options, write_stream}

module _ {Fs FilePath Batch Schema : Type 0} (crates : Crates Fs FilePath Batch Schema) where
  -- Writing a stream of one batch is writing the batch: for every format and all options it has the
  -- same effect on the file system, and the same result or error.
  pub write_stream-one :
      (writer : WriterEnum) (batch : Batch) (path : FilePath) (options : FormatWriteOptions crates)
      (fs : Fs)
      → write_stream crates writer (ok batch ∷ []) path options fs
        ≡ write_with_options crates writer batch path options fs
  unfolding write_stream write_with_options Parquet.write_stream Parquet.write_with_options
      Parquet.write_rest Lance.write_stream Lance.write_with_options Lance.pump Vortex.write_stream
      Vortex.write_with_options next_batch
  write_stream-one WriterEnum.parquet batch path (FormatWriteOptions.parquet options) fs = refl
  write_stream-one WriterEnum.lance batch path (FormatWriteOptions.lance options) fs = refl
  write_stream-one WriterEnum.vortex batch path (FormatWriteOptions.vortex options) fs = refl
  write_stream-one WriterEnum.parquet batch path (FormatWriteOptions.lance options) fs = refl
  write_stream-one WriterEnum.parquet batch path (FormatWriteOptions.vortex options) fs = refl
  write_stream-one WriterEnum.lance batch path (FormatWriteOptions.parquet options) fs = refl
  write_stream-one WriterEnum.lance batch path (FormatWriteOptions.vortex options) fs = refl
  write_stream-one WriterEnum.vortex batch path (FormatWriteOptions.parquet options) fs = refl
  write_stream-one WriterEnum.vortex batch path (FormatWriteOptions.lance options) fs = refl

-- What arrow documents of `concat_batches`, for no batch and for one.
pub record Concatenates {Batch Schema : Type 0} (arrow : Arrow Batch Schema) : Type 0 where
  pub none_lem : (schema : Schema) → arrow.concat_batches schema [] ≡ ok (arrow.new_empty schema)
  pub one_lem : (batch : Batch) → arrow.concat_batches (arrow.schema batch) (batch ∷ []) ≡ ok batch

module _ {Fs FilePath Batch Schema : Type 0} (arrow : Arrow Batch Schema)
    (crate : ParquetCrate Fs FilePath Batch Schema) where
  abbrev pub schema_of : Schema → List Batch → Schema
  schema_of schema [] = schema
  schema_of schema (batch ∷ rest) = arrow.schema batch

  as_one_lem :
      Concatenates arrow
      → (schema : Schema) (batches : List Batch)
      → Parquet.as_one arrow crate schema batches
        ≡ arrow.concat_batches (schema_of schema batches) batches
  unfolding Parquet.as_one
  as_one_lem law schema [] = sym (law.none_lem schema)
  as_one_lem law schema (batch ∷ []) = sym (law.one_lem batch)
  as_one_lem law schema (batch ∷ next ∷ rest) = refl

  abbrev pub collected : Schema → RecordBatchStream Batch → StorageResult Batch
  collected schema stream =
      then_try (try_collect stream)
        λ batches. arrow.concat_batches (schema_of schema batches) batches

  -- The two readers after the file was opened, or was not.
  abbrev batch_of : crate.StreamBuilder → Io Fs Batch
  batch_of builder = lift (crate.build builder) >>= λ stream.
      lift (try_collect stream) >>= λ batches.
      lift (Parquet.as_one arrow crate (crate.builder_schema builder) batches)

  abbrev stream_of : crate.StreamBuilder → Io Fs (RecordBatchStream Batch)
  stream_of builder = lift (crate.build builder)

  read_all-resume :
      Concatenates arrow
      → (g fs' : Fs) (opened : StorageResult crate.StreamBuilder) (stream : RecordBatchStream Batch)
      → resume stream_of g opened ≡ (fs', ok stream)
      → (builder : crate.StreamBuilder) × (opened ≡ ok builder)
        × (g ≡ fs')
        × (resume batch_of g opened ≡ (fs', collected (crate.builder_schema builder) stream))
  read_all-resume law g fs' (err e) stream h = absurd (ground arith)
  read_all-resume law g fs' (ok builder) stream h =
      let built : crate.build builder ≡ ok stream =
        ap (λ (p : Fs × StorageResult (RecordBatchStream Batch)). p.1) h in
      let same : g ≡ fs' = ap (λ (p : Fs × StorageResult (RecordBatchStream Batch)). p.0) h in
      let schema = crate.builder_schema builder in
      (
        builder,
        refl,
        same,
        ap
              (λ (r : StorageResult (RecordBatchStream Batch)).
                resume
                  (λ stream. lift (try_collect stream) >>= λ batches.
                    lift (Parquet.as_one arrow crate schema batches))
                  g r)
              built
            ∙ collect_one law schema g (try_collect stream)
            ∙ ap (λ (f : Fs). (f, collected schema stream)) same,
      )
    where
      collect_one :
          Concatenates arrow
          → (schema : Schema) (g : Fs) (batches : StorageResult (List Batch))
          → resume (λ batches. lift (Parquet.as_one arrow crate schema batches)) g batches
            ≡ (g, then_try batches λ bs. arrow.concat_batches (schema_of schema bs) bs)
      collect_one law schema g (err e) = refl
      collect_one law schema g (ok batches) =
          ap (λ (r : StorageResult Batch). (g, r)) (as_one_lem law schema batches)

  fails-resume :
      (g fs' : Fs) (opened : StorageResult crate.StreamBuilder) (e : StorageError)
      → resume stream_of g opened ≡ (fs', err e)
      → resume batch_of g opened ≡ (fs', err e)
  fails-resume g fs' (err d) e h = cc (
    ap (λ (p : Fs × StorageResult (RecordBatchStream Batch)). p.0) h,
    ap (λ (p : Fs × StorageResult (RecordBatchStream Batch)). p.1) h,
  )
  fails-resume g fs' (ok builder) e h =
      let built : crate.build builder ≡ err e =
        ap (λ (p : Fs × StorageResult (RecordBatchStream Batch)). p.1) h in
      let same : g ≡ fs' = ap (λ (p : Fs × StorageResult (RecordBatchStream Batch)). p.0) h in
      rw (built, same) refl

  -- If the stream of a Parquet file cannot be opened, reading the file at once fails in the same way.
  pub read_with_options-fails :
      (path : FilePath) (options : ParquetReadOptions arrow crate) (fs fs' : Fs) (e : StorageError)
      → Parquet.read_stream arrow crate path options fs ≡ (fs', err e)
      → Parquet.read_with_options arrow crate path options fs ≡ (fs', err e)
  unfolding Parquet.read_with_options Parquet.read_stream
  read_with_options-fails path options fs fs' =
      let opened = Parquet.open_builder arrow crate path options fs in
      fails-resume opened.0 fs' opened.1

  -- Reading a Parquet file at once is reading its stream and joining the batches: if `read_stream`
  -- gives a stream, then the file was opened, and `read_with_options` leaves the same file system
  -- and gives the first error of the stream, or what `concat_batches` makes of its batches at the
  -- schema of the first one, and if there is none at the schema of the file, which is that of the
  -- opened builder. The hypothesis on arrow is what it documents of `concat_batches` for no batch
  -- and for one.
  pub read_with_options-read_stream :
      Concatenates arrow
      → (path : FilePath) (options : ParquetReadOptions arrow crate) (fs fs' : Fs)
        (stream : RecordBatchStream Batch)
      → Parquet.read_stream arrow crate path options fs ≡ (fs', ok stream)
      → (builder : crate.StreamBuilder) × (Parquet.open_builder arrow crate path options fs
          ≡ (fs', ok builder))
        × (Parquet.read_with_options arrow crate path options fs
            ≡ (fs', collected (crate.builder_schema builder) stream))
  unfolding Parquet.read_with_options Parquet.read_stream
  read_with_options-read_stream law path options fs fs' stream h =
      let opened = Parquet.open_builder arrow crate path options fs in
      let (builder, is, same, joined) = read_all-resume law opened.0 fs' opened.1 stream h in
      (builder, (λ i. (same i, is i)), joined)
