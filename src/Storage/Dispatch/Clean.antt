-- ===== src/Storage/Dispatch/Clean.antt =====
-- Streams of batches that are alike, and what is left by a stream that has no first batch.
use planar.Base.{◌≡◌, refl, ap, List, [], ◌∷◌, map, All, arith, Option, none, some, String}
use planar.Base.Except.{ok, err}
use planar.Storage.{StorageError}
use planar.Storage.Io.{lift, ◌>>=◌}
use planar.Storage.Streams.{RecordBatchStream, next_batch, path_to_utf8}
use planar.Storage.Crates.{Crates}
use planar.Storage.Parquet
use planar.Storage.Lance
use planar.Storage.Vortex

module _ {Batch : Type 0} (Alike : Batch → Batch → Type 0) where
  -- The stream has a batch, no error, and only batches like the first one.
  pub record Clean (stream : RecordBatchStream Batch) : Type 0 where
    pub first : Batch
    pub others : List Batch
    pub stream_is : stream ≡ map (λ batch. ok batch) (first ∷ others)
    pub alike : All (λ batch. Alike batch first) others

  -- The rest of a stream, for its first batch.
  pub record CleanRest (first : Batch) (rest : RecordBatchStream Batch) : Type 0 where
    pub others : List Batch
    pub rest_is : rest ≡ map (λ batch. ok batch) others
    pub alike : All (λ batch. Alike batch first) others

  pub no_rest : (first : Batch) → CleanRest first []
  no_rest first = record { others = []; rest_is = refl; alike = tt }

  pub one_more :
      (first batch : Batch) (rest : RecordBatchStream Batch)
      → Alike batch first
      → CleanRest first rest
      → CleanRest first (ok batch ∷ rest)
  one_more first batch rest like c = record {
    others = batch ∷ c.others;
    rest_is = ap (◌∷◌ (ok batch)) c.rest_is;
    alike = (like, c.alike);
  }

  pub with_first :
      (first : Batch) (rest stream : RecordBatchStream Batch)
      → next_batch stream ≡ ok (first, rest)
      → CleanRest first rest
      → Clean stream
  unfolding next_batch
  with_first first rest [] h c = absurd (ground arith)
  with_first first rest (err e ∷ others) h c = absurd (ground arith)
  with_first first rest (ok batch ∷ others) h c =
      let e : batch ≡ first = cc h in
      let f : others ≡ rest = cc h in
      record { first = first; others = c.others; stream_is = cc (e, f, c.rest_is); alike = c.alike }

module _ {Fs FilePath Batch Schema : Type 0} (crates : Crates Fs FilePath Batch Schema) where
  -- A stream whose first item is missing or an error is not written, but the formats differ in what
  -- they leave: Lance and Vortex read the first batch before they touch anything, so the file
  -- system is as it was; Parquet creates the file first, so what `File::create` does to the path
  -- stays, although the call fails.
  pub write_stream-no_first :
      (stream : RecordBatchStream Batch) (path : FilePath) (fs : Fs) (e : StorageError)
      (properties : crates.parquet.WriterProperties) (params : crates.lance.WriteParams)
      (options : crates.vortex.WriteOptions) (file : crates.parquet.File) (created : Fs)
      → next_batch stream ≡ err e
      → crates.parquet.create path fs ≡ (created, ok file)
      → (Parquet.write_stream crates.arrow crates.parquet stream path properties fs
          ≡ (created, err e))
        × ((Lance.write_stream crates.arrow crates.lance stream path params fs).0 ≡ fs)
        × (Vortex.write_stream crates.vortex stream path options fs ≡ (fs, err e))
  unfolding Parquet.write_stream Lance.write_stream Vortex.write_stream
  write_stream-no_first stream path fs e properties params options file created missing made =
      (rw (made, missing) refl, lance_lem (crates.lance.to_str path), rw missing refl)
    where
      lance_lem :
          (text : Option String)
          → ((lift (path_to_utf8 text) >>= λ uri. lift (next_batch stream) >>= λ (first, rest).
                crates.lance.write
                  (crates.arrow.schema first)
                  (ok first ∷ Lance.pump crates.arrow crates.lance (crates.arrow.schema first) rest)
                  uri
                  params)
              fs).0
            ≡ fs
      lance_lem none = refl
      lance_lem (some uri) = rw missing refl
