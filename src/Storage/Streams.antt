-- ===== src/Storage/Streams.antt =====
-- storage/mod.rs: `RecordBatchStream`, and what the readers and writers do with one.
use planar.Base.{String, Option, List, [], ◌∷◌}
use planar.Base.Except.{ok, err, ok_or, ◌>>=◌}
use planar.Storage.{StorageResult, io, invalid_input}

-- The items of a stream, in the order in which `next` gives them.
abbrev pub RecordBatchStream : Type 0 → Type 0
RecordBatchStream Batch = List (StorageResult Batch)

module _ {Batch : Type 0} where
  -- `stream.try_collect()`: the batches, or the first error.
  unfoldable pub try_collect : RecordBatchStream Batch → StorageResult (List Batch)
  try_collect [] = ok []
  try_collect (item ∷ rest) = do batch ← item; batches ← try_collect rest; ok (batch ∷ batches)

  -- `stream.next()` where a batch must follow: it, and the rest of the stream.
  unfoldable pub next_batch :
      RecordBatchStream Batch → StorageResult (Batch × RecordBatchStream Batch)
  next_batch [] = err (invalid_input "write_stream requires at least one RecordBatch")
  next_batch (item ∷ rest) = do batch ← item; ok (batch, rest)

-- `path_to_utf8`, on what `Path::to_str` gives
abbrev pub path_to_utf8 : Option String → StorageResult String
path_to_utf8 text = ok_or text (io "Path contains invalid UTF-8")
