-- ===== src/Catalog/Append.antt =====
-- catalog/mod.rs, `commit`: the branch `MutationOp::AppendFiles`.
pub mod Effect
use planar.Base.{ℕ, ◌+◌, String, Option, none, some, List, [], ◌∷◌, leb, length}
use planar.Base.Int.{as_u32}
use planar.Base.Eq.{string_eq}
use planar.Base.Chunks.{chunks}
use planar.Base.Except.{ok, guard, ◌>>=◌, ◌>>◌}
use planar.Error.{Result, limit_exceeded}
use planar.Json.{serialize_json_optional}
use planar.Limits.{max_files_per_append, batch_insert_files_chunk}
use planar.Storage.{as_str}
use planar.Spec.{Uuid, FileSpec, validate_file}
use planar.Db.{FileRow, insert_files}
use planar.Catalog.{Libraries, Env, Work}

module _ {Value Map : Type 0} (lib : Libraries Value Map) (env : Env) where
  -- The row of one file: the UUID of the client, or a new one.
  abbrev file_row : Uuid → Uuid → FileSpec Value → Option String → Option String → FileRow
  file_row table_uuid file_uuid f partition_text format_text = record {
    file_uuid = file_uuid;
    table_uuid = table_uuid;
    file_format = as_str f.file_format;
    file_path = f.file_path;
    record_count = f.record_count;
    file_size_bytes = f.file_size_bytes;
    added_in_transaction_id = env.transaction_id;
    removed_in_transaction_id = none;
    partition_values = partition_text;
    format_options = format_text;
  }

  -- `f.file_uuid.unwrap_or_else(Uuid::new_v4)`, with the draws after it.
  abbrev pub choose_uuid : ℕ → Option Uuid → Uuid × ℕ
  choose_uuid drawn none = (env.new_v4 drawn, drawn + 1)
  choose_uuid drawn (some uuid) = (uuid, drawn)

  -- The rows of one chunk of files, with the draws after it.
  chunk_rows : Uuid → ℕ → List (FileSpec Value) → Result (List FileRow × ℕ)
  chunk_rows table_uuid drawn [] = ok ([], drawn)
  chunk_rows table_uuid drawn (f ∷ rest) = do
    validate_file lib.json lib.text f
    let chosen = choose_uuid drawn f.file_uuid
    partition_text ← serialize_json_optional lib.json f.partition_values
    format_text ← serialize_json_optional lib.json f.format_options
    (rows, drawn') ← chunk_rows table_uuid chosen.1 rest
    ok (file_row table_uuid chosen.0 f partition_text format_text ∷ rows, drawn')

  append_chunks : Uuid → List (List (FileSpec Value)) → Work Map → Result (Work Map)
  unfolding chunk_rows
  append_chunks table_uuid [] work = ok work
  append_chunks table_uuid (chunk ∷ rest) work = do
    (rows, drawn) ← chunk_rows table_uuid work.drawn chunk
    db ← insert_files table_uuid env.transaction_id rows work.db
    append_chunks table_uuid rest (record work { db = db; drawn = drawn })

  -- `MutationOp::AppendFiles`
  unfoldable pub apply_append : Uuid → List (FileSpec Value) → Work Map → Result (Work Map)
  unfolding append_chunks
  apply_append table_uuid files work = do
    guard (leb (as_u32 (length files)) max_files_per_append)
        (limit_exceeded "cannot append {} files, exceeds limit of {}")
    append_chunks table_uuid (chunks batch_insert_files_chunk files) work
