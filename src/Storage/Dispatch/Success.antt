-- ===== src/Storage/Dispatch/Success.antt =====
-- What a successful write shows of its stream.
use planar.Base.{
  String, ◌≡◌, refl, inl, inr, Bool, true, false, Bool-cases, List, [], ◌∷◌, map, All, arith,
}
use planar.Base.Except.{Except, ok, err}
use planar.Storage.{StorageError, unsupported}
use planar.Storage.Io.{lift, guard, ◌>>=◌, >>=-eq-ok}
use planar.Storage.Streams.{RecordBatchStream, next_batch, path_to_utf8}
use planar.Storage.Crates.{Crates}
use planar.Storage.Parquet
use planar.Storage.Lance
use planar.Storage.Vortex
use planar.Storage.Dispatch.Clean.{Clean, CleanRest, no_rest, one_more, with_first}
use planar.Storage.Dispatch.{WriterEnum, FormatWriteOptions, write_stream}

abbrev pub succeeded : {E A : Type 0} → Except E A → Bool
succeeded (ok value) = true
succeeded (err e) = false

-- What the lance and vortex crates document of their writers: an error among the items that they are
-- given ends the write with an error.
pub record Strict {Fs FilePath Batch Schema : Type 0} (crates : Crates Fs FilePath Batch Schema)
    : Type 0 where
  pub lance :
      (schema : Schema) (items : List (Except crates.lance.ArrowError Batch)) (uri : String)
      (params : crates.lance.WriteParams) (fs : Fs)
      → (crates.lance.write schema items uri params fs).1 ≡ ok tt
      → All (λ item. succeeded item ≡ true) items
  pub vortex :
      (options : crates.vortex.WriteOptions) (file : crates.vortex.File)
      (dtype : crates.vortex.DType)
      (items : List (Except crates.vortex.VortexError crates.vortex.Array)) (fs : Fs)
      → (crates.vortex.write options file dtype items fs).1 ≡ ok tt
      → All (λ item. succeeded item ≡ true) items

guard-true :
    {Fs : Type 0} (b : Bool) (e : StorageError) (fs : Fs) → (guard b e fs).1 ≡ ok tt → b ≡ true
guard-true true e fs h = refl
guard-true false e fs h = cc

module _ {Fs FilePath Batch Schema : Type 0} (crates : Crates Fs FilePath Batch Schema) where
  abbrev SameSchema : Batch → Batch → Type 0
  SameSchema a b = crates.arrow.schema a ≡ crates.arrow.schema b

  abbrev SameDtype : Batch → Batch → Type 0
  SameDtype a b =
      crates.vortex.dtype (crates.vortex.from_arrow a)
      ≡ crates.vortex.dtype (crates.vortex.from_arrow b)

  write_rest-CleanRest :
      (first : Batch) (rest : RecordBatchStream Batch) (writer writer' : crates.parquet.ArrowWriter)
      (fs : Fs)
      → (Parquet.write_rest crates.arrow crates.parquet
          (crates.arrow.schema first)
          rest
          writer
          fs).1
        ≡ ok writer'
      → CleanRest SameSchema first rest
  unfolding Parquet.write_rest
  write_rest-CleanRest first [] writer writer' fs h = no_rest SameSchema first
  write_rest-CleanRest first (err e ∷ rest) writer writer' fs h = absurd (ground arith)
  write_rest-CleanRest first (ok batch ∷ rest) writer writer' fs h =
      let expected = crates.arrow.schema first in
      let found = crates.arrow.schema batch in
      let same = crates.arrow.schema_eq.equals found expected in
      let onward = λ (w : crates.parquet.ArrowWriter).
        Parquet.write_rest crates.arrow crates.parquet expected rest w in
      let write_it = λ (checked : Unit {0}). crates.parquet.write writer batch >>= onward in
      let check =
        guard {Fs = Fs} same (unsupported "Schema mismatch in stream: expected {:?}, got {:?}") in
      let (_, checked, h₁) = >>=-eq-ok check write_it fs h in
      let (writer₁, wrote, h₂) =
        >>=-eq-ok (crates.parquet.write writer batch) onward (check fs).0 h₁ in
      one_more SameSchema first batch rest
        ((crates.arrow.schema_eq.equals_iff found expected).0 (guard-true same _ fs checked))
        (write_rest-CleanRest first rest writer₁ writer'
          (crates.parquet.write writer batch (check fs).0).0 h₂)

  parquet-Clean :
      (stream : RecordBatchStream Batch) (path : FilePath)
      (options : crates.parquet.WriterProperties) (fs : Fs)
      → (Parquet.write_stream crates.arrow crates.parquet stream path options fs).1 ≡ ok tt
      → Clean SameSchema stream
  unfolding Parquet.write_stream
  parquet-Clean stream path options fs h =
      let schema = crates.arrow.schema in
      let closing = crates.parquet.close in
      let rest_of =
        λ (first : Batch) (rest : RecordBatchStream Batch) (writer : crates.parquet.ArrowWriter).
          Parquet.write_rest crates.arrow crates.parquet (schema first) rest writer >>= closing in
      let first_of =
        λ (first : Batch) (rest : RecordBatchStream Batch) (writer : crates.parquet.ArrowWriter).
          crates.parquet.write writer first >>= rest_of first rest in
      let open_of = λ (file : crates.parquet.File) (read : Batch × RecordBatchStream Batch).
        crates.parquet.try_new file (schema read.0) options >>= first_of read.0 read.1 in
      let (file, made, h₁) =
        >>=-eq-ok (crates.parquet.create path)
          (λ (file : crates.parquet.File). lift (next_batch stream) >>= open_of file) fs h in
      let fs₁ = (crates.parquet.create path fs).0 in
      let ((first, rest), read, h₂) = >>=-eq-ok (lift (next_batch stream)) (open_of file) fs₁ h₁ in
      let (writer₁, opened, h₃) =
        >>=-eq-ok (crates.parquet.try_new file (schema first) options) (first_of first rest) fs₁
          h₂ in
      let fs₂ = (crates.parquet.try_new file (schema first) options fs₁).0 in
      let (writer₂, wrote, h₄) =
        >>=-eq-ok (crates.parquet.write writer₁ first) (rest_of first rest) fs₂ h₃ in
      let fs₃ = (crates.parquet.write writer₁ first fs₂).0 in
      let (writer₃, ran, h₅) =
        >>=-eq-ok (Parquet.write_rest crates.arrow crates.parquet (schema first) rest writer₂)
          closing fs₃ h₄ in
      with_first SameSchema first rest stream read
        (write_rest-CleanRest first rest writer₂ writer₃ fs₃ ran)

  pump-CleanRest :
      (first : Batch) (rest : RecordBatchStream Batch)
      → All
          (λ item. succeeded item ≡ true)
          (Lance.pump crates.arrow crates.lance (crates.arrow.schema first) rest)
      → CleanRest SameSchema first rest
  unfolding Lance.pump
  pump-CleanRest first [] h = no_rest SameSchema first
  pump-CleanRest first (err e ∷ rest) h = absurd (ground (arith, h.0))
  pump-CleanRest first (ok batch ∷ rest) h =
      let same =
        crates.arrow.schema_eq.equals (crates.arrow.schema batch) (crates.arrow.schema first) in
      elim (Bool-cases same) [
        | inl alike ↦
            one_more SameSchema first batch rest
              ((crates.arrow.schema_eq.equals_iff (crates.arrow.schema batch)
                  (crates.arrow.schema first)).0
                alike)
              (pump-CleanRest first rest (rw alike at h).1)
        | inr other ↦ absurd (ground (arith, (rw other at h).0))
      ]

  lance-Clean :
      Strict crates
      → (stream : RecordBatchStream Batch) (path : FilePath) (options : crates.lance.WriteParams)
        (fs : Fs)
      → (Lance.write_stream crates.arrow crates.lance stream path options fs).1 ≡ ok tt
      → Clean SameSchema stream
  unfolding Lance.write_stream
  lance-Clean strict stream path options fs h =
      let send = λ (uri : String) (read : Batch × RecordBatchStream Batch).
        crates.lance.write (crates.arrow.schema read.0)
          (ok read.0 ∷ Lance.pump crates.arrow crates.lance (crates.arrow.schema read.0) read.1) uri
          options in
      let (uri, text, h₁) =
        >>=-eq-ok (lift (path_to_utf8 (crates.lance.to_str path)))
          (λ (uri : String). lift (next_batch stream) >>= send uri) fs h in
      let ((first, rest), read, h₂) = >>=-eq-ok (lift (next_batch stream)) (send uri) fs h₁ in
      let items = Lance.pump crates.arrow crates.lance (crates.arrow.schema first) rest in
      with_first SameSchema first rest stream read (
        pump-CleanRest first rest
          (strict.lance (crates.arrow.schema first) (ok first ∷ items) uri options fs h₂).1)

  convert-CleanRest :
      (first : Batch) (rest : RecordBatchStream Batch)
      → All
          (λ item. succeeded item ≡ true)
          (map
            (Vortex.convert crates.vortex (crates.vortex.dtype (crates.vortex.from_arrow first)))
            rest)
      → CleanRest SameDtype first rest
  unfolding Vortex.convert
  convert-CleanRest first [] h = no_rest SameDtype first
  convert-CleanRest first (err e ∷ rest) h = absurd (ground (arith, h.0))
  convert-CleanRest first (ok batch ∷ rest) h =
      let expected = crates.vortex.dtype (crates.vortex.from_arrow first) in
      let found = crates.vortex.dtype (crates.vortex.from_arrow batch) in
      elim (Bool-cases (crates.vortex.dtype_eq.equals found expected)) [
        | inl alike ↦
            one_more SameDtype first batch rest
              ((crates.vortex.dtype_eq.equals_iff found expected).0 alike)
              (convert-CleanRest first rest h.1)
        | inr other ↦ absurd (ground (arith, (rw other at h).0))
      ]

  vortex-Clean :
      Strict crates
      → (stream : RecordBatchStream Batch) (path : FilePath) (options : crates.vortex.WriteOptions)
        (fs : Fs)
      → (Vortex.write_stream crates.vortex stream path options fs).1 ≡ ok tt
      → Clean SameDtype stream
  unfolding Vortex.write_stream
  vortex-Clean strict stream path options fs h =
      let type_of = λ (batch : Batch). crates.vortex.dtype (crates.vortex.from_arrow batch) in
      let items_of = λ (read : Batch × RecordBatchStream Batch).
        ok (crates.vortex.from_arrow read.0)
        ∷ map (Vortex.convert crates.vortex (type_of read.0)) read.1 in
      let send = λ (read : Batch × RecordBatchStream Batch) (file : crates.vortex.File).
        crates.vortex.write options file (type_of read.0) (items_of read) in
      let ((first, rest), read, h₁) =
        >>=-eq-ok (lift (next_batch stream))
          (λ (read : Batch × RecordBatchStream Batch). crates.vortex.create path >>= send read) fs
          h in
      let (file, made, h₂) = >>=-eq-ok (crates.vortex.create path) (send (first, rest)) fs h₁ in
      with_first SameDtype first rest stream read (
        convert-CleanRest first rest
          (strict.vortex options file (type_of first) (items_of (first, rest))
            (crates.vortex.create path fs).0 h₂).1)

  -- The batches that a writer takes for alike: by their schemas, or by the types of their arrays.
  abbrev pub Alike : WriterEnum → Batch → Batch → Type 0
  Alike WriterEnum.parquet = SameSchema
  Alike WriterEnum.lance = SameSchema
  Alike WriterEnum.vortex = SameDtype

  -- A write that succeeds has written a clean stream: if `write_stream` returns no error, then for
  -- every format the stream has at least one batch and no error, and all its batches are like the
  -- first one, by their schema for Parquet and Lance, and by the type of their Vortex array for
  -- Vortex. The hypothesis is that the lance and vortex crates fail on an error among their items.
  pub write_stream-Clean :
      Strict crates
      → (writer : WriterEnum) (stream : RecordBatchStream Batch) (path : FilePath)
        (options : FormatWriteOptions crates) (fs : Fs)
      → (write_stream crates writer stream path options fs).1 ≡ ok tt
      → Clean (Alike writer) stream
  unfolding write_stream
  write_stream-Clean strict WriterEnum.parquet stream path (FormatWriteOptions.parquet o) fs h =
      parquet-Clean stream path o fs h
  write_stream-Clean strict WriterEnum.lance stream path (FormatWriteOptions.lance o) fs h =
      lance-Clean strict stream path o fs h
  write_stream-Clean strict WriterEnum.vortex stream path (FormatWriteOptions.vortex o) fs h =
      vortex-Clean strict stream path o fs h
  write_stream-Clean strict WriterEnum.parquet stream path (FormatWriteOptions.lance o) fs h = cc
  write_stream-Clean strict WriterEnum.parquet stream path (FormatWriteOptions.vortex o) fs h = cc
  write_stream-Clean strict WriterEnum.lance stream path (FormatWriteOptions.parquet o) fs h = cc
  write_stream-Clean strict WriterEnum.lance stream path (FormatWriteOptions.vortex o) fs h = cc
  write_stream-Clean strict WriterEnum.vortex stream path (FormatWriteOptions.parquet o) fs h = cc
  write_stream-Clean strict WriterEnum.vortex stream path (FormatWriteOptions.lance o) fs h = cc
